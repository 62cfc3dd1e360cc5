-- ===== src/Api/Json/Render.antt =====
-- What a BACnet value renders as: jsonValue, jsonValues, jsonFloat and field of internal/api/dto.go.
use bacnet_ip_rest_proxy.Prelude.{
  ℕ, ◌+◌, ◌-◌, ◌/◌, ◌%◌, Bool, List, [], ◌∷◌, ◌++◌, length, replicate, ltb, ℤ, pos, negsuc,
  if◌then◌else◌,
}
use bacnet_ip_rest_proxy.Prelude.Decimal.{Bytes, codes, print_decimal}
use bacnet_ip_rest_proxy.Bacnet.Value.{
  Primitive, null, boolean, unsigned, signed, real, double, octet_string, character_string,
  bit_string, enumerated, date, time, object_id, Value, Values, nil, cons, primitive,
  context_primitive, constructed,
}
use bacnet_ip_rest_proxy.Bacnet.Objects.{print_object_type}
use bacnet_ip_rest_proxy.Api.Json.Floats.{is_nan, is_infinite, is_nan32, is_infinite32}

-- The Go value that is encoded as JSON: numbers by their type, a map by its entries.
mutual
  pub data Rendered : Type 0 where
    null_value : Rendered
    bool_value : Bool → Rendered
    uint_value : ℕ → Rendered
    int_value : ℤ → Rendered
    float32_value : ℕ → Rendered
    float64_value : ℕ → Rendered
    bytes_value : Bytes → Rendered
    text_value : Bytes → Rendered
    bools_value : List Bool → Rendered
    object_value : Bytes → ℕ → Rendered
    data_value : ℕ → Bytes → Rendered
    items_value : ℕ → Items → Rendered
    list_value : Items → Rendered

  pub data Items : Type 0 where
    no_items : Items
    item : Rendered → Items → Items

-- Two lowercase hexadecimal digits a byte.
unfoldable pub hex_digit : ℕ → ℕ
hex_digit n = if ltb n 10 then b'0' + n else b'a' + (n - 10)

unfoldable pub hex : Bytes → Bytes
unfolding hex_digit
hex [] = []
hex (b ∷ s) = hex_digit (b / 16) ∷ hex_digit (b % 16) ∷ hex s

-- `field`: `*` for a negative number, zeros up to the width for another.
unfoldable pub field : ℤ → ℕ → Bytes
unfolding print_decimal
field (negsuc n) width = codes "*"
field (pos n) width = replicate (width - length (print_decimal n)) b'0' ++ print_decimal n

unfoldable pub json_float32 : ℕ → Rendered
unfolding is_nan32 is_infinite32
json_float32 f =
    if is_nan32 f
    then text_value (codes "NaN")
    else if is_infinite32 0 f
    then text_value (codes "Infinity")
    else if is_infinite32 1 f
    then text_value (codes "-Infinity")
    else float32_value f

unfoldable pub json_float64 : ℕ → Rendered
unfolding is_nan is_infinite
json_float64 f =
    if is_nan f
    then text_value (codes "NaN")
    else if is_infinite 0 f
    then text_value (codes "Infinity")
    else if is_infinite 1 f
    then text_value (codes "-Infinity")
    else float64_value f

unfoldable pub json_primitive : Primitive → Rendered
unfolding json_float32 json_float64 field print_object_type
json_primitive null = null_value
json_primitive (boolean b) = bool_value b
json_primitive (unsigned n) = uint_value n
json_primitive (signed z) = int_value z
json_primitive (real f) = json_float32 f
json_primitive (double f) = json_float64 f
json_primitive (octet_string s) = bytes_value s
json_primitive (character_string s) = text_value s
json_primitive (bit_string bs) = bools_value bs
json_primitive (enumerated n) = uint_value n
json_primitive (date d) =
    text_value (field d.year 4 ++ codes "-" ++ field d.month 2 ++ codes "-" ++ field d.day 2)
json_primitive (time t) = text_value (
    field t.hour 2
    ++ codes ":"
    ++ field t.minute 2
    ++ codes ":"
    ++ field t.second 2
    ++ codes "."
    ++ field t.hundredth 2)
json_primitive (object_id o) = object_value (print_object_type o.object_type) o.instance_number

mutual
  pub json_value : Value → Rendered
  json_value (primitive p) = json_primitive p
  json_value (context_primitive tag octets) = data_value tag (hex octets)
  json_value (constructed tag vs) = items_value tag (json_items vs)

  pub json_items : Values → Items
  json_items nil = no_items
  json_items (cons v vs) = item (json_value v) (json_items vs)

-- `jsonValues`: one value bare, any other number of them as a list.
unfoldable pub json_values : Values → Rendered
unfolding json_value json_items
json_values (cons v nil) = json_value v
json_values vs = list_value (json_items vs)
