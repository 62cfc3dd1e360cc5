-- ===== src/Api/Json/Write/Laws.antt =====
-- What a written value becomes, valueForWrite of internal/api/dto.go.
use mathlib.Core.Path.{subst}
use bacnet_ip_rest_proxy.Prelude.{
  ℕ, ◌+◌, ◌*◌, ◌^◌, ◌≤◌, ◌<◌, ◌≡◌, ◌⊎◌, refl, inl, inr, Bool, true, false, ◌||◌, Option, none, some,
  if◌then◌else◌, Bool-cases, Option-cases, arith,
}
use bacnet_ip_rest_proxy.Prelude.Decimal.{Bytes, codes, same_bytes}
use bacnet_ip_rest_proxy.Bacnet.Value.{Value, primitive, null, real, enumerated, unsigned}
use bacnet_ip_rest_proxy.Api.Json.Floats.{integer_of, is_nan32, is_infinite32, is_zero, is_one}
use bacnet_ip_rest_proxy.Api.Json.Floats.Laws.{float32_of-lt, integer_of-bounds}
use bacnet_ip_rest_proxy.Api.Json.Render.{text_value, float32_value, json_float32}
use bacnet_ip_rest_proxy.Api.Json.Write.{
  Json, null_json, bool_json, number_json, text_json, array_json, object_json, parse_json_float,
  binary_present_value, analog_present_value, state_present_value, is_analog, is_binary,
  is_multi_state, present_value_for_write, value_for_write,
}

-- A value that a present-value of an object of the type can take, or the null that relinquishes it.
pub data IsPresentValue (t : ℕ) : Value → Type 0 where
  relinquishes : IsPresentValue t (primitive null)
  is_real : {f : ℕ} → is_analog t ≡ true → f < 2 ^ 32 → IsPresentValue t (primitive (real f))
  is_switch : {n : ℕ} → is_binary t ≡ true → n ≤ 1 → IsPresentValue t (primitive (enumerated n))
  is_state :
      {n : ℕ}
      → is_multi_state t ≡ true
      → 1 ≤ n
      → n < 2 ^ 64
      → IsPresentValue t (primitive (unsigned n))

-- The property of a value, where there is one.
abbrev Each : (Value → Type 0) → Option Value → Type 0
Each P none = Unit {0}
Each P (some v) = P v

Each-if :
    (P : Value → Type 0) (b : Bool) (x y : Option Value)
    → (b ≡ true → Each P x)
    → (b ≡ false → Each P y)
    → Each P (if b then x else y)
Each-if P true x y hx hy = hx refl
Each-if P false x y hx hy = hy refl

Each-some : (P : Value → Type 0) (o : Option Value) (v : Value) → Each P o → o ≡ some v → P v
Each-some P o v h e = subst (Each P) e h

module _ (large : ℕ → ℕ) (t : ℕ) where
  analog-Each :
      (raw : Json) → is_analog t ≡ true → Each (IsPresentValue t) (analog_present_value raw)
  unfolding analog_present_value
  analog-Each raw a = elim (Option-cases (parse_json_float raw)) [
    | inr (f, e) ↦ rw (e, analog_present_value) (is_real a (float32_of-lt f))
    | inl e ↦ rw (e, analog_present_value) tt
  ]

  state-Each :
      (raw : Json)
      → is_multi_state t ≡ true
      → Each (IsPresentValue t) (state_present_value large raw)
  unfolding state_present_value
  state-Each (number_json f) a = elim (Option-cases (integer_of large f)) [
    | inr (n, e) ↦
        let (low, high) = integer_of-bounds large f n e in
        rw (e, state_present_value) (is_state a low high)
    | inl e ↦ rw (e, state_present_value) tt
  ]
  state-Each null_json a = tt
  state-Each (bool_json b) a = tt
  state-Each (text_json s) a = tt
  state-Each array_json a = tt
  state-Each object_json a = tt

  binary_values :
      (raw : Json)
      → IsPresentValue t (primitive (enumerated 0))
      → IsPresentValue t (primitive (enumerated 1))
      → Each (IsPresentValue t) (binary_present_value raw)
  unfolding binary_present_value
  binary_values (bool_json b) off on =
      Each-if _ b (some (primitive (enumerated 1))) (some (primitive (enumerated 0))) (λ _. on)
        (λ _. off)
  binary_values (number_json f) off on =
      Each-if _ (is_zero f) (some (primitive (enumerated 0))) _ (λ _. off)
        λ _. Each-if _ (is_one f) (some (primitive (enumerated 1))) none (λ _. on) (λ _. tt)
  binary_values (text_json s) off on =
      Each-if _ (same_bytes s (codes "active")) (some (primitive (enumerated 1))) _ (λ _. on)
        λ _.
          Each-if _ (same_bytes s (codes "inactive")) (some (primitive (enumerated 0))) none
            (λ _. off) (λ _. tt)
  binary_values null_json off on = tt
  binary_values array_json off on = tt
  binary_values object_json off on = tt

  binary-Each :
      (raw : Json) → is_binary t ≡ true → Each (IsPresentValue t) (binary_present_value raw)
  binary-Each raw a = binary_values raw (is_switch a (omega arith)) (is_switch a (omega arith))

  IsPresentValue-Each :
      (raw : Json)
      → is_analog t || is_binary t || is_multi_state t ≡ true
      → Each (IsPresentValue t) (present_value_for_write large t raw)
  unfolding present_value_for_write
  IsPresentValue-Each raw known = Each-if _ (is_analog t) _ _ (analog-Each raw) λ not_analog.
      Each-if _ (is_binary t) _ _ (binary-Each raw) λ not_binary.
        Each-if _ (is_multi_state t) _ _ (state-Each raw) λ not_state. absurd (ground arith)

-- A value that is written to the present-value of an analog, binary or multi-state object is one
-- that such an object can have, or the null that relinquishes: a real of 32 bits, an enumerated 0
-- or 1, or a state index from 1 that fits 64 bits; whatever the conversion of a larger number gives.
pub value_for_write-IsPresentValue :
    (large : ℕ → ℕ) (t : ℕ) (raw : Json) (v : Value)
    → is_analog t || is_binary t || is_multi_state t ≡ true
    → value_for_write large t 85 raw ≡ some v
    → IsPresentValue t v
unfolding value_for_write
value_for_write-IsPresentValue large t raw v known h = written raw h
  where
    written : (raw : Json) → value_for_write large t 85 raw ≡ some v → IsPresentValue t v
    written null_json e = Each-some (IsPresentValue t) (some (primitive null)) v relinquishes e
    written (bool_json b) e =
        Each-some (IsPresentValue t) _ v (IsPresentValue-Each large t (bool_json b) known) e
    written (number_json f) e =
        Each-some (IsPresentValue t) _ v (IsPresentValue-Each large t (number_json f) known) e
    written (text_json s) e =
        Each-some (IsPresentValue t) _ v (IsPresentValue-Each large t (text_json s) known) e
    written array_json e =
        Each-some (IsPresentValue t) _ v (IsPresentValue-Each large t array_json known) e
    written object_json e =
        Each-some (IsPresentValue t) _ v (IsPresentValue-Each large t object_json known) e

text_eq : {s r : Bytes} → text_value s ≡ text_value r → s ≡ r
text_eq h = cc

not_text : {f : ℕ} {s : Bytes} → float32_value f ≡ text_value s → ⊥
not_text h = cc

nan_reads : analog_present_value (text_json (codes "NaN")) ≡ some (primitive (real 0x7fc00000))
unfolding analog_present_value
nan_reads = refl

infinity_reads :
    analog_present_value (text_json (codes "Infinity")) ≡ some (primitive (real 0x7f800000))
unfolding analog_present_value
infinity_reads = refl

minus_infinity_reads :
    analog_present_value (text_json (codes "-Infinity")) ≡ some (primitive (real 0xff800000))
unfolding analog_present_value
minus_infinity_reads = refl

quiet_nan : is_nan32 0x7fc00000 ≡ true
unfolding is_nan32
quiet_nan = refl

infinite_bits : (sign f : ℕ) → is_infinite32 sign f ≡ true → sign * 2 ^ 31 + 255 * 2 ^ 23 ≡ f
unfolding is_infinite32
infinite_bits sign f h = ground (arith, h)

-- A real that is rendered as a text, since JSON has no number for it, is written back as the same
-- real, or as a NaN where it was one.
pub analog_present_value-json_float32 :
    (f : ℕ) (s : Bytes)
    → json_float32 f ≡ text_value s
    → (g : ℕ) × (analog_present_value (text_json s) ≡ some (primitive (real g)))
      × ((g ≡ f) ⊎ ((is_nan32 f ≡ true) × (is_nan32 g ≡ true)))
unfolding json_float32
analog_present_value-json_float32 f s h = elim (Bool-cases (is_nan32 f)) [
  | inl nan ↦
      let e = text_eq (rw (nan, json_float32) at h) in
      rw⁻¹ e (0x7fc00000, nan_reads, inr (nan, quiet_nan))
  | inr number ↦ elim (Bool-cases (is_infinite32 0 f)) [
    | inl up ↦
        let e = text_eq (rw (number, up, json_float32) at h) in
        rw⁻¹ e (0x7f800000, infinity_reads, inl (infinite_bits 0 f up))
    | inr other ↦ elim (Bool-cases (is_infinite32 1 f)) [
      | inl down ↦
          let e = text_eq (rw (number, other, down, json_float32) at h) in
          rw⁻¹ e (0xff800000, minus_infinity_reads, inl (infinite_bits 1 f down))
      | inr finite ↦ absurd (not_text (rw (number, other, finite, json_float32) at h))
    ]
  ]
]
