-- ===== src/Api/Json/Write.antt =====
-- What a written JSON value becomes: valueForWrite, binaryPresentValue, valueFromJSONShape and
-- parseJSONFloat of internal/api/dto.go. A text's bytes are its UTF-8 bytes, a number its float64 bits.
pub mod Laws
use bacnet_ip_rest_proxy.Prelude.{
  ℕ, ◌*◌, ◌^◌, ◌+◌, Bool, true, false, ◌||◌, Option, none, some, ltb, ◌==◌, if◌then◌else◌,
}
use bacnet_ip_rest_proxy.Prelude.Decimal.{Bytes, codes, same_bytes}
use bacnet_ip_rest_proxy.Bacnet.Value.{
  Value, primitive, null, boolean, real, enumerated, unsigned, character_string,
}
use bacnet_ip_rest_proxy.Api.Json.Floats.{float32_of, integer_of, is_zero, is_one}

-- A decoded JSON value; of arrays and objects, only that they are.
pub data Json : Type 0 where
  null_json : Json
  bool_json : Bool → Json
  number_json : ℕ → Json
  text_json : Bytes → Json
  array_json : Json
  object_json : Json

-- The bits of `math.NaN()`, of `math.Inf(1)` and of `math.Inf(-1)`.
abbrev pub nan_bits : ℕ
nan_bits = 0x7ff8000000000001

abbrev pub infinity_bits : ℕ
infinity_bits = 0x7ff0000000000000

abbrev pub minus_infinity_bits : ℕ
minus_infinity_bits = 0xfff0000000000000

unfoldable pub parse_json_float : Json → Option ℕ
unfolding same_bytes
parse_json_float (number_json f) = some f
parse_json_float (text_json s) =
    if same_bytes s (codes "NaN")
    then some nan_bits
    else if same_bytes s (codes "Infinity")
    then some infinity_bits
    else if same_bytes s (codes "-Infinity")
    then some minus_infinity_bits
    else none
parse_json_float raw = none

unfoldable pub binary_present_value : Json → Option Value
unfolding same_bytes is_zero is_one
binary_present_value (bool_json b) =
    if b then some (primitive (enumerated 1)) else some (primitive (enumerated 0))
binary_present_value (number_json f) =
    if is_zero f
    then some (primitive (enumerated 0))
    else if is_one f
    then some (primitive (enumerated 1))
    else none
binary_present_value (text_json s) =
    if same_bytes s (codes "active")
    then some (primitive (enumerated 1))
    else if same_bytes s (codes "inactive")
    then some (primitive (enumerated 0))
    else none
binary_present_value raw = none

unfoldable pub value_from_json_shape : Json → Option Value
unfolding float32_of
value_from_json_shape (bool_json b) = some (primitive (boolean b))
value_from_json_shape (number_json f) = some (primitive (real (float32_of f)))
value_from_json_shape (text_json s) = some (primitive (character_string s))
value_from_json_shape raw = none

-- The cases of the switch on the object type of a present-value.
unfoldable pub analog_present_value : Json → Option Value
unfolding parse_json_float float32_of
analog_present_value raw = elim (parse_json_float raw) [
  | some f ↦ some (primitive (real (float32_of f)))
  | none ↦ none
]

unfoldable pub state_present_value : (ℕ → ℕ) → Json → Option Value
unfolding integer_of
state_present_value large (number_json f) = elim (integer_of large f) [
  | some n ↦ some (primitive (unsigned n))
  | none ↦ none
]
state_present_value large raw = none

unfoldable pub is_analog : ℕ → Bool
is_analog t = (t == 0) || (t == 1) || (t == 2)

unfoldable pub is_binary : ℕ → Bool
is_binary t = (t == 3) || (t == 4) || (t == 5)

unfoldable pub is_multi_state : ℕ → Bool
is_multi_state t = (t == 13) || (t == 14) || (t == 19)

unfoldable pub present_value_for_write : (ℕ → ℕ) → ℕ → Json → Option Value
unfolding is_analog is_binary is_multi_state analog_present_value binary_present_value
    state_present_value value_from_json_shape
present_value_for_write large t raw =
    if is_analog t
    then analog_present_value raw
    else if is_binary t
    then binary_present_value raw
    else if is_multi_state t
    then state_present_value large raw
    else value_from_json_shape raw

-- `valueForWrite`; nothing where it returns an error. `large` is the conversion of `integer_of`.
unfoldable pub value_for_write : (ℕ → ℕ) → ℕ → ℕ → Json → Option Value
unfolding present_value_for_write value_from_json_shape
value_for_write large t prop null_json = some (primitive null)
value_for_write large t prop raw =
    if prop == 85 then present_value_for_write large t raw else value_from_json_shape raw
