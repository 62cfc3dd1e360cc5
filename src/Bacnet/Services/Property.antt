-- ===== src/Bacnet/Services/Property.antt =====
-- ReadProperty and WriteProperty, internal/bacnet/services.go. The object, the property and the
-- optional array index that all three messages begin with are a record of their own.
pub mod Target
pub mod RoundTrip
pub mod Safe
use bacnet_ip_rest_proxy.Prelude.{
  ℕ, ◌%◌, Bool, true, false, List, [], ◌∷◌, ◌++◌, Option, none, some, Outcome, ok, ◌>>=◌, length,
  slice_from,
}
use bacnet_ip_rest_proxy.Bacnet.Tag.{opening_tag, closing_tag}
use bacnet_ip_rest_proxy.Bacnet.Primitive.{ObjectIdentifier}
use bacnet_ip_rest_proxy.Bacnet.Value.{
  Primitive, Value, Values, primitive, object_id, enumerated, context_value, value_bytes,
  values_bytes, decode_application_value, decode_values, expect_opening, expect_closing,
}
use bacnet_ip_rest_proxy.Bacnet.Services.Context.{
  decode_context_object_id, decode_context_enumerated, optional_unsigned, optional_bytes,
}

-- `ReadPropertyRequest`, and the first three fields of the other two messages.
pub record PropertyTarget : Type 0 where
  pub object : ObjectIdentifier
  pub property : ℕ
  pub array_index : Option ℕ

unfoldable pub encode_target : PropertyTarget → List ℕ
encode_target t =
    context_value true 0 (object_id t.object)
    ++ (context_value true 1 (enumerated t.property) ++ optional_bytes 2 t.array_index)

unfoldable pub decode_target : List ℕ → Outcome (PropertyTarget × List ℕ)
decode_target buf = do
  (oid, n) ← decode_context_object_id 0 buf
  rest ← slice_from n buf
  (prop, m) ← decode_context_enumerated 1 rest
  rest' ← slice_from m rest
  (idx, rest'') ← optional_unsigned 32 2 rest'
  ok (record { object = oid; property = prop; array_index = idx }, rest'')

-- `EncodeReadPropertyRequest` and `DecodeReadPropertyRequest`
unfoldable pub encode_read_property_request : PropertyTarget → List ℕ
unfolding encode_target
encode_read_property_request r = encode_target r

unfoldable pub decode_read_property_request : List ℕ → Outcome PropertyTarget
unfolding decode_target
decode_read_property_request buf = do (t, rest) ← decode_target buf; ok t

pub record ReadPropertyAck : Type 0 where
  pub target : PropertyTarget
  pub values : Values

unfoldable pub encode_read_property_ack : ReadPropertyAck → List ℕ
unfolding encode_target
encode_read_property_ack a =
    encode_target a.target ++ (opening_tag 3 ++ (values_bytes a.values ++ closing_tag 3))

unfoldable pub decode_read_property_ack : List ℕ → Outcome ReadPropertyAck
unfolding decode_target
decode_read_property_ack buf = do
  (t, rest) ← decode_target buf
  n ← expect_opening 3 rest
  inner ← slice_from n rest
  (values, m) ← decode_values inner
  after ← slice_from m inner
  c ← expect_closing 3 after
  ok (record { target = t; values = values })

pub record WritePropertyRequest : Type 0 where
  pub target : PropertyTarget
  pub value : Value
  pub priority : Option ℕ

unfoldable pub encode_write_property_request : WritePropertyRequest → List ℕ
unfolding encode_target
encode_write_property_request w =
    encode_target w.target
    ++ (opening_tag 3 ++ (value_bytes w.value ++ (closing_tag 3 ++ optional_bytes 4 w.priority)))

-- The priority is looked for only `if pos < len(buf)`.
priority_at : List ℕ → Outcome (Option ℕ × List ℕ)
priority_at [] = ok (none, [])
priority_at (b ∷ rest) = optional_unsigned 8 4 (b ∷ rest)

unfoldable pub decode_write_property_request : List ℕ → Outcome WritePropertyRequest
unfolding decode_target priority_at
decode_write_property_request buf = do
  (t, rest) ← decode_target buf
  n ← expect_opening 3 rest
  inner ← slice_from n rest
  (p, m) ← decode_application_value inner
  after ← slice_from m inner
  c ← expect_closing 3 after
  tail ← slice_from c after
  (priority, end) ← priority_at tail
  ok (record { target = t; value = primitive p; priority = priority })
