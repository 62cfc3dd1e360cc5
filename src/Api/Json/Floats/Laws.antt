-- ===== src/Api/Json/Floats/Laws.antt =====
-- The ranges of the conversions of floating-point numbers that internal/api/dto.go makes.
use native.Mathlib.Nat.{
  pow-le-pow_right, div-le_of_le-mul, one-le-pow, div-le_self, le-div_iff_mul-le, mul-le-mul_left,
}
use bacnet_ip_rest_proxy.Prelude.{
  ℕ, ◌+◌, ◌-◌, ◌*◌, ◌/◌, ◌^◌, ◌≤◌, ◌<◌, max, ◌≡◌, inl, inr, some, ltb, ◌==◌, if◌then◌else◌,
  Bool-cases, arith,
}
use bacnet_ip_rest_proxy.Api.Json.Floats.{
  exponent, fraction, round_shift, narrow_finite, float32_of, integer_of,
}

round_shift-le : (m k : ℕ) → m < 2 ^ 53 → 30 ≤ k → round_shift m k ≤ 2 ^ 23 + 1
unfolding round_shift
round_shift-le m k small far =
    let big : 2 ^ 30 ≤ 2 ^ k = pow-le-pow_right (omega arith) far in
    let q : m / 2 ^ k ≤ 2 ^ 23 = div-le_of_le-mul (2 ^ k) (omega (arith, big)) in ground (arith, q)

narrow_finite-lt : (e f : ℕ) → e < 2047 → f < 2 ^ 52 → narrow_finite e f < 2 ^ 31
unfolding narrow_finite
narrow_finite-lt e f he hf = elim (Bool-cases (ltb (max e 1) 897)) [
  | inl tiny ↦
      let bound =
        round_shift-le (if e == 0 then f else 2 ^ 52 + f) (926 - max e 1) (ground arith)
          (ground (arith, tiny)) in
      rw (tiny, narrow_finite) (omega (arith, bound))
  | inr normal ↦ rw (normal, narrow_finite) (ground arith)
]

-- A float64's conversion has 32 bits.
pub float32_of-lt : (b : ℕ) → float32_of b < 2 ^ 32
unfolding float32_of
float32_of-lt b = ground (arith, narrow_finite-lt (exponent b) (fraction b))

scaled-bounds :
    (m k : ℕ) → 2 ^ 52 ≤ m → m < 2 ^ 53 → k ≤ 11 → (1 ≤ m * 2 ^ k) × (m * 2 ^ k < 2 ^ 64)
scaled-bounds m k low high near =
    let one : m * 1 ≤ m * 2 ^ k = mul-le-mul_left m (one-le-pow k 2 (omega arith)) in
    let top : m * 2 ^ k ≤ m * 2 ^ 11 = mul-le-mul_left m (pow-le-pow_right (omega arith) near) in
    (omega (arith, one), omega (arith, top))

divided-bounds :
    (m k : ℕ) → 2 ^ 52 ≤ m → m < 2 ^ 53 → k ≤ 52 → (1 ≤ m / 2 ^ k) × (m / 2 ^ k < 2 ^ 64)
divided-bounds m k low high near =
    let whole : 2 ^ k ≤ 2 ^ 52 = pow-le-pow_right (omega arith) near in
    (
      (le-div_iff_mul-le (one-le-pow k 2 (omega arith))).1 (omega (arith, whole)),
      omega (arith, div-le_self m (2 ^ k)),
    )

-- A float64 that is accepted as a positive integer is one of 64 bits.
pub integer_of-bounds :
    (large : ℕ → ℕ) (b n : ℕ) → integer_of large b ≡ some n → (1 ≤ n) × (n < 2 ^ 64)
unfolding integer_of
integer_of-bounds large b n h =
    let m = 2 ^ 52 + fraction b in
    ground (arith, scaled-bounds m (exponent b - 1075), divided-bounds m (1075 - exponent b))
