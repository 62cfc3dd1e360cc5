-- ===== src/Examples/Names.antt =====
-- The theorems about names and written values at concrete texts and numbers.
use bacnet_ip_rest_proxy.Prelude.{◌^◌, ◌-◌, ℕ, ◌≡◌, ◌⊎◌, refl, true, ◌||◌, none, some, arith}
use bacnet_ip_rest_proxy.Prelude.Decimal.{codes}
use bacnet_ip_rest_proxy.Bacnet.Value.{primitive, real}
use bacnet_ip_rest_proxy.Bacnet.Objects.{
  print_object_type, parse_object_type, print_property, parse_property,
}
use bacnet_ip_rest_proxy.Bacnet.Objects.RoundTrip.{
  parse_object_type-print_object_type, parse_property-print_property,
}
use bacnet_ip_rest_proxy.Api.Json.Floats.{float32_of, integer_of, is_nan32}
use bacnet_ip_rest_proxy.Api.Json.Render.{text_value, json_float32}
use bacnet_ip_rest_proxy.Api.Json.Write.{
  number_json, text_json, value_for_write, analog_present_value, is_analog, is_binary,
  is_multi_state,
}
use bacnet_ip_rest_proxy.Api.Json.Write.Laws.{
  IsPresentValue, value_for_write-IsPresentValue, analog_present_value-json_float32,
}

parse_object_type-print_object_type_example : parse_object_type (print_object_type 512) ≡ some 512
parse_object_type-print_object_type_example = parse_object_type-print_object_type 512 (omega arith)

parse_property-print_property_example : parse_property (print_property 85) ≡ some 85
parse_property-print_property_example = parse_property-print_property 85 (omega arith)

numbered_type : parse_object_type (codes "object-type(1000)") ≡ some 1000
unfolding parse_object_type
numbered_type = refl

named_type : parse_object_type (codes "lift") ≡ some 59
unfolding parse_object_type
named_type = refl

large_type : parse_object_type (codes "1024") ≡ none
unfolding parse_object_type
large_type = refl

numbered_property : print_property 4194303 ≡ codes "property(4194303)"
unfolding print_property
numbered_property = refl

-- 1.5, 0.1, the largest float32 and a little more, and the smallest subnormal float32.
conversions :
    (float32_of 0x3ff8000000000000 ≡ 0x3fc00000)
    × (float32_of 0x3fb999999999999a ≡ 0x3dcccccd)
    × (float32_of 0x47efffffe0000000 ≡ 0x7f7fffff)
    × (float32_of 0x47effffff0000000 ≡ 0x7f800000)
    × (float32_of 0x36a0000000000000 ≡ 1)
    × (float32_of 0xc008000000000000 ≡ 0xc0400000)
unfolding float32_of
conversions = (refl, refl, refl, refl, refl, refl)

-- Conversions of large numbers, that give 2 ^ 63 and 2 ^ 64 - 1.
abbrev to_half : ℕ → ℕ
to_half b = 2 ^ 63

abbrev to_largest : ℕ → ℕ
to_largest b = 2 ^ 64 - 1

-- 1, 3 and 2 ^ 63 are integers, 2 ^ 64 is one where its conversion rounds to it, 0.5 and 1.5 are not.
integers :
    (integer_of to_half 0x3ff0000000000000 ≡ some 1)
    × (integer_of to_half 0x4008000000000000 ≡ some 3)
    × (integer_of to_half 0x43e0000000000000 ≡ some 9223372036854775808)
    × (integer_of to_half 0x43f0000000000000 ≡ none)
    × (integer_of to_largest 0x43f0000000000000 ≡ some 18446744073709551615)
    × (integer_of to_largest 0x43f0000000000001 ≡ none)
    × (integer_of to_half 0x3fe0000000000000 ≡ none)
    × (integer_of to_half 0x3ff8000000000000 ≡ none)
unfolding integer_of
integers = (refl, refl, refl, refl, refl, refl, refl, refl)

output_type : is_analog 1 || is_binary 1 || is_multi_state 1 ≡ true
unfolding is_analog is_binary is_multi_state
output_type = refl

written_real :
    value_for_write to_half 1 85 (number_json 0x3ff8000000000000)
    ≡ some (primitive (real 0x3fc00000))
unfolding value_for_write
written_real = refl

value_for_write-IsPresentValue_example : IsPresentValue 1 (primitive (real 0x3fc00000))
value_for_write-IsPresentValue_example =
    value_for_write-IsPresentValue to_half 1 (number_json 0x3ff8000000000000)
      (primitive (real 0x3fc00000)) output_type written_real

minus_infinity : json_float32 0xff800000 ≡ text_value (codes "-Infinity")
unfolding json_float32
minus_infinity = refl

analog_present_value-json_float32_example :
    (g : ℕ) × (analog_present_value (text_json (codes "-Infinity")) ≡ some (primitive (real g)))
    × ((g ≡ 0xff800000) ⊎ ((is_nan32 0xff800000 ≡ true) × (is_nan32 g ≡ true)))
analog_present_value-json_float32_example =
    analog_present_value-json_float32 0xff800000 (codes "-Infinity") minus_infinity
