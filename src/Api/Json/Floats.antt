-- ===== src/Api/Json/Floats.antt =====
-- The floating-point tests and conversions of internal/api/dto.go, on IEEE 754 bits.
pub mod Laws
use bacnet_ip_rest_proxy.Prelude.{
  ℕ, ◌+◌, ◌-◌, ◌*◌, ◌/◌, ◌%◌, ◌^◌, max, Bool, true, false, not, ◌&&◌, ◌||◌, Option, none, some, ltb,
  leb, ◌==◌, if◌then◌else◌,
}

abbrev pub sign_bit : ℕ → ℕ
sign_bit b = b / 2 ^ 63

abbrev pub exponent : ℕ → ℕ
exponent b = b / 2 ^ 52 % 2048

abbrev pub fraction : ℕ → ℕ
fraction b = b % 2 ^ 52

-- `math.IsNaN`, `math.IsInf(f, 1)` and `math.IsInf(f, -1)` of a float64, and of a float32 that is
-- converted to one.
unfoldable pub is_nan : ℕ → Bool
is_nan b = (exponent b == 2047) && not (fraction b == 0)

unfoldable pub is_infinite : ℕ → ℕ → Bool
is_infinite sign b = b == sign * 2 ^ 63 + 2047 * 2 ^ 52

unfoldable pub is_nan32 : ℕ → Bool
is_nan32 b = (b / 2 ^ 23 % 256 == 255) && not (b % 2 ^ 23 == 0)

unfoldable pub is_infinite32 : ℕ → ℕ → Bool
is_infinite32 sign b = b == sign * 2 ^ 31 + 255 * 2 ^ 23

-- The quotient by 2 ^ k, rounded to nearest, ties to even.
unfoldable pub round_shift : ℕ → ℕ → ℕ
round_shift m k =
    let q = m / 2 ^ k in
    let r = m % 2 ^ k in
    if ltb (2 * r) (2 ^ k) then q else if ltb (2 ^ k) (2 * r) then q + 1 else q + q % 2

-- The magnitude of a float32 that is nearest to a finite float64.
unfoldable pub narrow_finite : ℕ → ℕ → ℕ
unfolding round_shift
narrow_finite e f =
    let m = if e == 0 then f else 2 ^ 52 + f in
    let e' = max e 1 in
    if ltb e' 897
    then round_shift m (926 - e')
    else let b = (e' - 897) * 2 ^ 23 + round_shift m 29 in
      if leb (255 * 2 ^ 23) b then 255 * 2 ^ 23 else b

-- `float32(f)`; a NaN keeps its upper bits and becomes quiet.
unfoldable pub float32_of : ℕ → ℕ
unfolding narrow_finite
float32_of b =
    let sign = sign_bit b % 2 * 2 ^ 31 in
    let top = fraction b / 2 ^ 29 in
    if exponent b == 2047
    then if fraction b == 0
      then sign + 255 * 2 ^ 23
      else sign + 255 * 2 ^ 23 + (if leb (2 ^ 22) top then top else top + 2 ^ 22)
    else sign + narrow_finite (exponent b) (fraction b)

-- `uint64(f)` where `f >= 1 && f == float64(uint64(f))`, and nothing elsewhere. Go leaves the
-- conversion of a float64 of 2 ^ 64 or more to the implementation: `large` gives its result, and
-- the one such float64 that the test can accept is 2 ^ 64, to which the 1024 largest results round.
unfoldable pub integer_of : (ℕ → ℕ) → ℕ → Option ℕ
integer_of large b =
    let m = 2 ^ 52 + fraction b in
    let u = large b % 2 ^ 64 in
    if ltb 0 (sign_bit b) || ltb (exponent b) 1023
    then none
    else if leb 1087 (exponent b)
    then (if (b == 0x43f0000000000000) && leb (2 ^ 64 - 1024) u then some u else none)
    else if leb 1075 (exponent b)
    then some (m * 2 ^ (exponent b - 1075))
    else if m % 2 ^ (1075 - exponent b) == 0
    then some (m / 2 ^ (1075 - exponent b))
    else none

-- `v == 0` and `v == 1`
unfoldable pub is_zero : ℕ → Bool
is_zero b = b % 2 ^ 63 == 0

unfoldable pub is_one : ℕ → Bool
is_one b = b == 1023 * 2 ^ 52
