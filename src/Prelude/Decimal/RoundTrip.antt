-- ===== src/Prelude/Decimal/RoundTrip.antt =====
-- Printed numbers read back, and texts that are put together come apart.
use Prim.Native.Nat.{ℕ, zero, suc, ◌+◌, ◌/◌, ◌%◌, ◌≤◌, ◌<◌}
use mathlib.Core.Bool.{true}
use mathlib.Core.Logic.{◌≢◌, inl, inr}
use mathlib.Core.List.{[], ◌∷◌, ◌++◌}
use mathlib.Core.Option.{some}
use mathlib.Core.Path.{◌≡◌, refl, ◌∙◌}
use native.Mathlib.Omega.{arith}
use bacnet_ip_rest_proxy.Prelude.Tests.{◌==◌, ==_self, Bool-cases, le→leb}
use bacnet_ip_rest_proxy.Prelude.Decimal.{
  Bytes, same_bytes, cut_prefix, cut_last, digits_loop, print_decimal, read_digits, parse_uint32,
}

pub same_bytes_self : (s : Bytes) → same_bytes s s ≡ true
unfolding same_bytes
same_bytes_self [] = refl
same_bytes_self (c ∷ s) = ground (arith, same_bytes_self s)

pub same_bytes-eq : (s t : Bytes) → same_bytes s t ≡ true → s ≡ t
unfolding same_bytes
same_bytes-eq [] [] h = refl
same_bytes-eq [] (b ∷ t) h = cc
same_bytes-eq (a ∷ s) [] h = cc
same_bytes-eq (a ∷ s) (b ∷ t) h = ground (arith, same_bytes-eq s t)

pub cut_prefix-append : (p s : Bytes) → cut_prefix p (p ++ s) ≡ some s
unfolding cut_prefix
cut_prefix-append [] s = refl
cut_prefix-append (c ∷ p) s = rw (==_self c) (cut_prefix-append p s)

pub cut_last-append : (b : ℕ) (s : Bytes) → cut_last b (s ++ b ∷ []) ≡ some s
unfolding cut_last
cut_last-append b [] = rw (==_self b) refl
cut_last-append b (c ∷ []) = rw (cut_last, ==_self b) refl
cut_last-append b (c ∷ d ∷ s) = rw (cut_last-append b (d ∷ s)) refl

read_last : (n : ℕ) (out : Bytes) → read_digits (n / 10) ((b'0' + n % 10) ∷ out) ≡ read_digits n out
unfolding read_digits
read_last n out = ground arith

read_digits-digits_loop :
    (fuel n : ℕ) (out : Bytes)
    → n < fuel
    → read_digits 0 (digits_loop fuel n out) ≡ read_digits n out
unfolding digits_loop
read_digits-digits_loop zero n out h = absurd (omega arith)
read_digits-digits_loop (suc fuel) n out h = elim (Bool-cases (n / 10 == 0)) [
  | inl last ↦
      let zero_left : n / 10 ≡ 0 = ground (arith, last) in
      let step = read_last n out in rw last (rw zero_left at step)
  | inr more ↦
      let more_left : n / 10 < fuel = ground (arith, more) in
      rw more (read_digits-digits_loop fuel (n / 10) _ (omega (arith, more_left)) ∙ read_last n out)
]

digits_loop-ne-nil : (fuel n : ℕ) (out : Bytes) → out ≢ [] → digits_loop fuel n out ≢ []
unfolding digits_loop
digits_loop-ne-nil zero n out h = h
digits_loop-ne-nil (suc fuel) n out h =
    ground (arith, digits_loop-ne-nil fuel (n / 10) ((b'0' + n % 10) ∷ out))

print_decimal-ne-nil : (n : ℕ) → print_decimal n ≢ []
unfolding print_decimal digits_loop
print_decimal-ne-nil n = ground (arith, digits_loop-ne-nil n (n / 10) ((b'0' + n % 10) ∷ []))

parse_uint32-read_digits :
    (s : Bytes) (n : ℕ)
    → s ≢ []
    → read_digits 0 s ≡ some n
    → n ≤ 4294967295
    → parse_uint32 s ≡ some n
unfolding parse_uint32
parse_uint32-read_digits [] n h e small = absurd (h refl)
parse_uint32-read_digits (c ∷ s) n h e small = rw (e, parse_uint32, le→leb n 4294967295 small) refl

-- Every number of 32 bits is read back from its decimal digits.
pub parse_uint32-print_decimal : (n : ℕ) → n ≤ 4294967295 → parse_uint32 (print_decimal n) ≡ some n
unfolding print_decimal read_digits
parse_uint32-print_decimal n small =
    parse_uint32-read_digits (print_decimal n) n (print_decimal-ne-nil n)
      (read_digits-digits_loop (suc n) n [] (omega arith)) small
