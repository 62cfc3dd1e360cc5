-- ===== src/Bacnet/Objects.antt =====
-- The names of object types and properties, internal/bacnet/objects.go.
pub mod Names
pub mod RoundTrip
use bacnet_ip_rest_proxy.Prelude.{
  ℕ, zero, suc, ◌+◌, Bool, true, false, not, ◌||◌, List, [], ◌∷◌, ◌++◌, Option, none, some, ltb,
  ◌==◌, if◌then◌else◌,
}
use bacnet_ip_rest_proxy.Prelude.Texts.{String}
use bacnet_ip_rest_proxy.Prelude.Decimal.{
  Bytes, codes, same_bytes, cut_prefix, cut_last, print_decimal, parse_uint32,
}

-- A table of numbers and their names: the maps in both directions.
abbrev pub Names : Type 0
Names = List (ℕ × Bytes)

unfoldable pub find_name : ℕ → Names → Option Bytes
find_name n [] = none
find_name n ((m, name) ∷ table) = if m == n then some name else find_name n table

unfoldable pub find_number : Bytes → Names → Option ℕ
unfolding same_bytes
find_number s [] = none
find_number s ((n, name) ∷ table) = if same_bytes name s then some n else find_number s table

-- `parseNumbered` behind its prefix.
unfoldable pub number_within : ℕ → Bytes → Option ℕ
unfolding parse_uint32
number_within limit s = elim (parse_uint32 s) [
  | some n ↦ if ltb limit n then none else some n
  | none ↦ none
]

unfoldable pub parse_numbered : Bytes → Bytes → ℕ → Option ℕ
unfolding number_within cut_prefix cut_last
parse_numbered s prefix limit = elim (cut_prefix (prefix ++ b'(' ∷ []) s) [
  | some inner ↦ elim (cut_last b')' inner) [
    | some digits ↦ number_within limit digits
    | none ↦ none
  ]
  | none ↦ number_within limit s
]

-- A number's name, or `prefix(N)`, and the way back: what the functions for types and properties
-- have in common.
unfoldable pub print_named : Names → Bytes → ℕ → Bytes
unfolding find_name print_decimal
print_named table prefix n = elim (find_name n table) [
  | some name ↦ name
  | none ↦ prefix ++ b'(' ∷ (print_decimal n ++ b')' ∷ [])
]

unfoldable pub parse_named : Names → Bytes → ℕ → Bytes → Option ℕ
unfolding find_number parse_numbered
parse_named table prefix limit s = elim (find_number s table) [
  | some n ↦ some n
  | none ↦ parse_numbered s prefix limit
]

-- The types that the names stand for count from 0.
unfoldable pub numbered : ℕ → List String → Names
numbered n [] = []
numbered n (name ∷ names) = (n, codes name) ∷ numbered (suc n) names

unfoldable pub named_numbers : List (ℕ × String) → Names
named_numbers [] = []
named_numbers ((n, name) ∷ names) = (n, codes name) ∷ named_numbers names

abbrev pub standard_types : List String
standard_types =
    "analog-input" ∷ "analog-output" ∷ "analog-value" ∷ "binary-input" ∷ "binary-output"
    ∷ "binary-value" ∷ "calendar" ∷ "command" ∷ "device" ∷ "event-enrollment" ∷ "file" ∷ "group"
    ∷ "loop" ∷ "multi-state-input" ∷ "multi-state-output" ∷ "notification-class" ∷ "program"
    ∷ "schedule" ∷ "averaging" ∷ "multi-state-value" ∷ "trend-log" ∷ "life-safety-point"
    ∷ "life-safety-zone" ∷ "accumulator" ∷ "pulse-converter" ∷ "event-log" ∷ "global-group"
    ∷ "trend-log-multiple" ∷ "load-control" ∷ "structured-view" ∷ "access-door" ∷ "timer"
    ∷ "access-credential" ∷ "access-point" ∷ "access-rights" ∷ "access-user" ∷ "access-zone"
    ∷ "credential-data-input" ∷ "network-security" ∷ "bitstring-value" ∷ "characterstring-value"
    ∷ "datepattern-value" ∷ "date-value" ∷ "datetimepattern-value" ∷ "datetime-value"
    ∷ "integer-value" ∷ "large-analog-value" ∷ "octetstring-value" ∷ "positive-integer-value"
    ∷ "timepattern-value" ∷ "time-value" ∷ "notification-forwarder" ∷ "alert-enrollment" ∷ "channel"
    ∷ "lighting-output" ∷ "binary-lighting-output" ∷ "network-port" ∷ "elevator-group" ∷ "escalator"
    ∷ "lift" ∷ "staging" ∷ "audit-log" ∷ "audit-reporter" ∷ "color" ∷ "color-temperature" ∷ []

unfoldable pub object_type_names : Names
unfolding numbered
object_type_names = numbered 0 standard_types

abbrev pub standard_properties : List (ℕ × String)
standard_properties =
    (75, "object-identifier")
    ∷ (77, "object-name")
    ∷ (79, "object-type")
    ∷ (85, "present-value")
    ∷ (28, "description")
    ∷ (111, "status-flags")
    ∷ (36, "event-state")
    ∷ (81, "out-of-service")
    ∷ (117, "units")
    ∷ (87, "priority-array")
    ∷ (104, "relinquish-default")
    ∷ (76, "object-list")
    ∷ (121, "vendor-name")
    ∷ (70, "model-name")
    ∷ (44, "firmware-revision")
    ∷ (12, "application-software-version")
    ∷ (74, "number-of-states")
    ∷ (4, "active-text")
    ∷ (23, "date-list")
    ∷ (32, "effective-period")
    ∷ (38, "exception-schedule")
    ∷ (46, "inactive-text")
    ∷ (56, "local-date")
    ∷ (57, "local-time")
    ∷ (103, "reliability")
    ∷ (110, "state-text")
    ∷ (112, "system-status")
    ∷ (120, "vendor-identifier")
    ∷ (123, "weekly-schedule")
    ∷ (130, "event-time-stamps")
    ∷ (131, "log-buffer")
    ∷ (139, "protocol-revision")
    ∷ (174, "schedule-default")
    ∷ []

unfoldable pub property_names : Names
unfolding named_numbers
property_names = named_numbers standard_properties

-- `ObjectType.String` and `ParseObjectType`
unfoldable pub print_object_type : ℕ → Bytes
unfolding print_named object_type_names
print_object_type = print_named object_type_names (codes "object-type")

unfoldable pub parse_object_type : Bytes → Option ℕ
unfolding parse_named object_type_names
parse_object_type = parse_named object_type_names (codes "object-type") 1023

-- `PropertyIdentifier.String` and `ParsePropertyIdentifier`
unfoldable pub print_property : ℕ → Bytes
unfolding print_named property_names
print_property = print_named property_names (codes "property")

unfoldable pub parse_property : Bytes → Option ℕ
unfolding parse_named property_names
parse_property = parse_named property_names (codes "property") 4194303

-- `Commandable`
unfoldable pub is_output_or_value : ℕ → Bool
is_output_or_value object_type =
    (object_type == 1)
    || (object_type == 4)
    || (object_type == 14)
    || (object_type == 2)
    || (object_type == 5)
    || (object_type == 19)

unfoldable pub commandable : ℕ → ℕ → Bool
unfolding is_output_or_value
commandable object_type prop = if not (prop == 85) then false else is_output_or_value object_type
