-- ===== src/Bacnet/Primitive/Integers.antt =====
-- Integers there and back: internal/bacnet/tag.go and value.go.
use bacnet_ip_rest_proxy.Prelude.{
  ℕ, ◌+◌, ◌-◌, ◌*◌, ◌/◌, ◌%◌, ◌^◌, ◌≤◌, ◌<◌, ◌≡◌, refl, sym, ap, ◌∙◌, true, List, [], ◌∷◌, ltb,
  ◌==◌, ℤ, pos, negsuc, to_u64, of_u64, IsInt64, of_u64-to_u64, arith, length, All, Bool-cases, inl,
  inr, ltb_false→le,
}
use bacnet_ip_rest_proxy.Prelude.Bits.{bit_or-shift, bit_and-0x80}
use bacnet_ip_rest_proxy.Bacnet.Tag.{put_uint32, IsByte}
use bacnet_ip_rest_proxy.Bacnet.Primitive.{
  put_uint64, strip_zeros, min_unsigned_bytes, repeats_sign, strip_signs, min_signed_bytes,
  shift_in, unsigned_loop, decode_unsigned_data, sign_extend, decode_signed_data,
}

-- Shifting an octet in is Horner's step, modulo 2 ^ 64.
shift_in_lem : (v b : ℕ) → b < 256 → shift_in v b ≡ v * 256 % 2 ^ 64 + b
unfolding shift_in
shift_in_lem v b h =
    let e : v * 256 % 2 ^ 64 ≡ v % 2 ^ 56 * 2 ^ 8 = omega arith in
    rw (e) (bit_or-shift 8 (v % 2 ^ 56) b h)

unsigned_loop-strip_zeros :
    (octets : List ℕ) → unsigned_loop 0 (strip_zeros octets) ≡ unsigned_loop 0 octets
unfolding unsigned_loop strip_zeros
unsigned_loop-strip_zeros [] = refl
unsigned_loop-strip_zeros (a ∷ []) = refl
unsigned_loop-strip_zeros (a ∷ b ∷ rest) = elim (Bool-cases (a == 0)) [
  | inl z ↦ rw z (
      unsigned_loop-strip_zeros (b ∷ rest)
      ∙ ap (λ (v : ℕ). unsigned_loop (shift_in v b) rest) (sym (shifted (ground arith))))
  | inr n ↦ rw n
]
  where
    shifted : a ≡ 0 → shift_in 0 a ≡ 0
    shifted e = omega (arith, shift_in_lem 0 a (omega arith))

unsigned_loop-put_uint64 : (w : ℕ) → w < 2 ^ 64 → unsigned_loop 0 (put_uint64 w) ≡ w
unfolding unsigned_loop
unsigned_loop-put_uint64 w h = omega (arith, shift_in_lem)

-- Every uint64 reads back from its shortest encoding.
pub decode_unsigned_data-min_unsigned_bytes :
    (v : ℕ) → v < 2 ^ 64 → decode_unsigned_data (min_unsigned_bytes v) ≡ v
unfolding decode_unsigned_data min_unsigned_bytes
decode_unsigned_data-min_unsigned_bytes v h =
    unsigned_loop-strip_zeros (put_uint64 v) ∙ unsigned_loop-put_uint64 v h

-- The octet that repeats the sign of the next one adds nothing to the value.
sign_extend-repeats :
    (b next : ℕ)
    → b < 256
    → next < 256
    → repeats_sign b next ≡ true
    → shift_in (sign_extend b) next ≡ sign_extend next
unfolding repeats_sign sign_extend
sign_extend-repeats b next hb hn h =
    ground (arith, bit_and-0x80 next, shift_in_lem 0 next, shift_in_lem (2 ^ 64 - 1) next)

signed_pattern : List ℕ → ℕ
signed_pattern [] = 0
signed_pattern (b ∷ rest) = unsigned_loop (sign_extend b) rest

signed_pattern-strip_signs :
    (octets : List ℕ)
    → All IsByte octets
    → signed_pattern (strip_signs octets) ≡ signed_pattern octets
unfolding signed_pattern unsigned_loop strip_signs
signed_pattern-strip_signs [] h = refl
signed_pattern-strip_signs (b ∷ []) h = refl
signed_pattern-strip_signs (b ∷ next ∷ rest) (hb, hs) = elim (Bool-cases (repeats_sign b next)) [
  | inl r ↦
      let ih = signed_pattern-strip_signs (next ∷ rest) hs in
      let e = sign_extend-repeats b next hb hs.0 r in
      rw r (ih ∙ ap (λ (v : ℕ). unsigned_loop v rest) (sym e))
  | inr k ↦ rw k
]

signed_pattern-put_uint64 : (w : ℕ) → w < 2 ^ 64 → signed_pattern (put_uint64 w) ≡ w
unfolding signed_pattern unsigned_loop sign_extend
signed_pattern-put_uint64 w h = elim (Bool-cases (ltb (w / 2 ^ 56 % 256) 128)) [
  | inl low ↦ rw low (omega (arith, shift_in_lem))
  | inr high ↦ rw high (omega (arith, shift_in_lem, ltb_false→le (w / 2 ^ 56 % 256) 128 high))
]

put_uint64-IsByte : (w : ℕ) → All IsByte (put_uint64 w)
put_uint64-IsByte w = omega arith

decode_signed_data-pattern :
    (b : ℕ) (rest : List ℕ) → decode_signed_data (b ∷ rest) ≡ of_u64 (signed_pattern (b ∷ rest))
unfolding decode_signed_data signed_pattern
decode_signed_data-pattern b rest = refl

strip_signs-nonempty : (octets : List ℕ) → 0 < length octets → 0 < length (strip_signs octets)
unfolding strip_signs
strip_signs-nonempty [] h = h
strip_signs-nonempty (b ∷ []) h = h
strip_signs-nonempty (b ∷ next ∷ rest) h = ground (arith, strip_signs-nonempty (next ∷ rest))

decode_signed_data-nonempty :
    (octets : List ℕ)
    → 0 < length octets
    → decode_signed_data octets ≡ of_u64 (signed_pattern octets)
decode_signed_data-nonempty [] h = absurd (omega arith)
decode_signed_data-nonempty (b ∷ rest) h = decode_signed_data-pattern b rest

to_u64-lt : (v : ℤ) → to_u64 v < 2 ^ 64
to_u64-lt (pos n) = omega arith
to_u64-lt (negsuc n) = omega arith

-- Every int64 reads back from its shortest two's complement encoding.
pub decode_signed_data-min_signed_bytes :
    (v : ℤ) → IsInt64 v → decode_signed_data (min_signed_bytes v) ≡ v
unfolding min_signed_bytes
decode_signed_data-min_signed_bytes v h =
    let octets = put_uint64 (to_u64 v) in
    decode_signed_data-nonempty (strip_signs octets) (strip_signs-nonempty octets (omega arith))
    ∙ ap of_u64 (signed_pattern-strip_signs octets (put_uint64-IsByte (to_u64 v)))
    ∙ ap of_u64 (signed_pattern-put_uint64 (to_u64 v) (to_u64-lt v))
    ∙ of_u64-to_u64 v h

strip_zeros_bounds :
    (octets : List ℕ)
    → 0 < length octets
    → All IsByte octets
    → All IsByte (strip_zeros octets)
      × (0 < length (strip_zeros octets))
      × (length (strip_zeros octets) ≤ length octets)
unfolding strip_zeros
strip_zeros_bounds [] h k = absurd (omega arith)
strip_zeros_bounds (a ∷ []) h k = (k, omega arith, omega arith)
strip_zeros_bounds (a ∷ b ∷ rest) h k = elim (Bool-cases (a == 0)) [
  | inl e ↦
      let (bytes, lo, hi) = strip_zeros_bounds (b ∷ rest) (omega arith) k.1 in
      rw e (bytes, lo, omega arith)
  | inr e ↦ rw e (k, omega arith, omega arith)
]

strip_signs_bounds :
    (octets : List ℕ)
    → 0 < length octets
    → All IsByte octets
    → All IsByte (strip_signs octets)
      × (0 < length (strip_signs octets))
      × (length (strip_signs octets) ≤ length octets)
unfolding strip_signs
strip_signs_bounds [] h k = absurd (omega arith)
strip_signs_bounds (a ∷ []) h k = (k, omega arith, omega arith)
strip_signs_bounds (a ∷ b ∷ rest) h k = elim (Bool-cases (repeats_sign a b)) [
  | inl e ↦
      let (bytes, lo, hi) = strip_signs_bounds (b ∷ rest) (omega arith) k.1 in
      rw e (bytes, lo, omega arith)
  | inr e ↦ rw e (k, omega arith, omega arith)
]

-- The shortest encoding of any number is one to eight octets.
pub min_unsigned_bytes_bounds :
    (v : ℕ)
    → All IsByte (min_unsigned_bytes v)
      × (0 < length (min_unsigned_bytes v))
      × (length (min_unsigned_bytes v) ≤ 8)
unfolding min_unsigned_bytes
min_unsigned_bytes_bounds v = strip_zeros_bounds (put_uint64 v) (omega arith) (put_uint64-IsByte v)

pub min_signed_bytes_bounds :
    (v : ℤ)
    → All IsByte (min_signed_bytes v)
      × (0 < length (min_signed_bytes v))
      × (length (min_signed_bytes v) ≤ 8)
unfolding min_signed_bytes
min_signed_bytes_bounds v =
    strip_signs_bounds (put_uint64 (to_u64 v)) (omega arith) (put_uint64-IsByte (to_u64 v))

-- A uint32 takes at most four octets.
pub length-min_unsigned_bytes_u32 : (v : ℕ) → v < 2 ^ 32 → length (min_unsigned_bytes v) ≤ 4
unfolding min_unsigned_bytes strip_zeros
length-min_unsigned_bytes_u32 v h =
    let a : v / 2 ^ 56 % 256 ≡ 0 = omega arith in
    let b : v / 2 ^ 48 % 256 ≡ 0 = omega arith in
    let c : v / 2 ^ 40 % 256 ≡ 0 = omega arith in
    let d : v / 2 ^ 32 % 256 ≡ 0 = omega arith in
    rw (a, b, c, d) (strip_zeros_bounds (put_uint32 v) (omega arith) (omega arith)).2
