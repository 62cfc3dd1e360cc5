-- ===== src/Bacnet/Objects/RoundTrip.antt =====
-- Object types and properties read back from their names, internal/bacnet/objects.go.
use bacnet_ip_rest_proxy.Prelude.{ℕ, ◌≤◌, ◌≡◌, refl, some, arith}
use bacnet_ip_rest_proxy.Prelude.Decimal.{Bytes, codes}
use bacnet_ip_rest_proxy.Bacnet.Objects.{
  object_type_names, property_names, print_object_type, parse_object_type, print_property,
  parse_property,
}
use bacnet_ip_rest_proxy.Bacnet.Objects.Names.{
  distinct_names, without_prefix, numbers_within, parse_named-print_named, parse_named-le,
}

-- Every object type that fits its ten bits reads back from what it prints as, named or numbered.
pub parse_object_type-print_object_type :
    (t : ℕ) → t ≤ 1023 → parse_object_type (print_object_type t) ≡ some t
unfolding parse_object_type print_object_type distinct_names without_prefix
parse_object_type-print_object_type t small =
    parse_named-print_named (codes "object-type") 1023 object_type_names t refl refl small
      (omega arith)

-- Every property that fits its 22 bits reads back from what it prints as, named or numbered.
pub parse_property-print_property :
    (p : ℕ) → p ≤ 4194303 → parse_property (print_property p) ≡ some p
unfolding parse_property print_property distinct_names without_prefix
parse_property-print_property p small =
    parse_named-print_named (codes "property") 4194303 property_names p refl refl small
      (omega arith)

-- A text that is read as an object type gives one that fits ten bits, whatever the text.
pub parse_object_type-le : (s : Bytes) (t : ℕ) → parse_object_type s ≡ some t → t ≤ 1023
unfolding parse_object_type numbers_within
parse_object_type-le s t = parse_named-le (codes "object-type") 1023 object_type_names t s refl

-- A text that is read as a property gives one that fits 22 bits, whatever the text.
pub parse_property-le : (s : Bytes) (p : ℕ) → parse_property s ≡ some p → p ≤ 4194303
unfolding parse_property numbers_within
parse_property-le s p = parse_named-le (codes "property") 4194303 property_names p s refl
