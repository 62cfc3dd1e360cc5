-- ===== src/Prelude/Bits/Bytes.antt =====
-- Tests of single bits of a byte, each a table that is checked by evaluation.
use Prim.Native.Nat.{ℕ, zero, suc, ◌+◌, ◌*◌, ◌/◌, ◌%◌, ◌^◌, ◌<◌, bit_and, bit_or}
use mathlib.Core.Path.{◌≡◌, refl}
use mathlib.Core.Bool.{Bool, true, false, not, ◌&&◌}
use native.Mathlib.Omega.{arith}
use bacnet_ip_rest_proxy.Prelude.Tests.{◌==◌, ==_iff, ltb, ltb→lt, if◌then◌else◌}

holds_below : ℕ → (ℕ → Bool) → Bool
holds_below zero p = true
holds_below (suc n) p = p n && holds_below n p

holds_below→true : (p : ℕ → Bool) (n : ℕ) → holds_below n p ≡ true → (x : ℕ) → x < n → p x ≡ true
unfolding holds_below
holds_below→true p zero h x lt = absurd (omega arith)
holds_below→true p (suc n) h x lt = ground (arith, holds_below→true p n (ground arith) x)

table : (f g : ℕ → ℕ) (n : ℕ) → holds_below n (λ x. f x == g x) ≡ true → (x : ℕ) → x < n → f x ≡ g x
table f g n h x lt = (==_iff (f x) (g x)).0 (holds_below→true (λ x. f x == g x) n h x lt)

pub bit_and-0x08 : (b : ℕ) → b < 256 → bit_and b 0x08 ≡ b / 8 % 2 * 8
unfolding holds_below
bit_and-0x08 = table _ _ 256 refl

pub bit_and-0x07 : (b : ℕ) → b < 256 → bit_and b 0x07 ≡ b % 8
unfolding holds_below
bit_and-0x07 = table _ _ 256 refl

pub bit_and-0x20 : (b : ℕ) → b < 256 → bit_and b 0x20 ≡ b / 32 % 2 * 32
unfolding holds_below
bit_and-0x20 = table _ _ 256 refl

pub bit_and-0x80 : (b : ℕ) → b < 256 → bit_and b 0x80 ≡ b / 128 * 128
unfolding holds_below
bit_and-0x80 = table _ _ 256 refl

-- The first octet of a tag: number or 15, class, and length or marker, `x = 16 * n + 8 * c + l`.
pub tag_octet :
    (n c l : ℕ) → n < 16 → c < 2 → l < 8 → bit_or (bit_or (c * 8) (n * 16)) l ≡ n * 16 + c * 8 + l
unfolding holds_below
tag_octet n c l hn hc hl = ground (
  arith,
  table (λ x. bit_or (bit_or (x / 8 % 2 * 8) (x / 16 * 16)) (x % 8)) (λ x. x) 256 refl
      (n * 16 + c * 8 + l),
)

-- The same octet of a marker, packed in the other order.
pub marker_octet : (n l : ℕ) → n < 16 → l < 8 → bit_or (bit_or (n * 16) 0x08) l ≡ n * 16 + 8 + l
unfolding holds_below
marker_octet n l hn hl = ground (
  arith,
  table (λ x. bit_or (bit_or (x / 8 * 16) 0x08) (x % 8)) (λ x. x / 8 * 16 + 8 + x % 8) 128 refl
      (n * 8 + l),
)

mask_step : ℕ → Bool
mask_step x =
    let b = x / 64 in
    let i = x / 8 % 8 in
    let j = x % 8 in
    let before = bit_and b (0x80 / 2 ^ j) in
    let after = bit_and (bit_or b (0x80 / 2 ^ i)) (0x80 / 2 ^ j) in
    if i == j then not (after == 0) else after == before

mask_table : holds_below 16384 mask_step ≡ true
unfolding holds_below mask_step
mask_table = refl

-- Setting one bit of a byte by `|=` sets that bit and no other.
pub set_bit_mask :
    (b i j : ℕ)
    → b < 256
    → i < 8
    → j < 8
    → ((bit_and (bit_or b (0x80 / 2 ^ i)) (0x80 / 2 ^ j)) == 0)
      ≡ (if i == j then false else bit_and b (0x80 / 2 ^ j) == 0)
unfolding mask_step
set_bit_mask b i j hb hi hj =
    let x : ℕ = b * 64 + i * 8 + j in
    let p : x / 64 ≡ b = omega arith in
    let q : x / 8 % 8 ≡ i = omega arith in
    let r : x % 8 ≡ j = omega arith in
    let h =
      rw (p, q, r, mask_step) at (holds_below→true mask_step 16384 mask_table x (omega arith)) in
    ground (arith, h)

pub bit_or_mask-lt : (b i : ℕ) → b < 256 → i < 8 → bit_or b (0x80 / 2 ^ i) < 256
unfolding holds_below
bit_or_mask-lt b i hb hi =
    let x : ℕ = b * 8 + i in
    let p : x / 8 ≡ b = omega arith in
    let q : x % 8 ≡ i = omega arith in
    ltb→lt _ _ (
      rw (p, q) at
        (holds_below→true (λ x. ltb (bit_or (x / 8) (0x80 / 2 ^ (x % 8))) 256) 2048 refl x
          (omega arith)))
