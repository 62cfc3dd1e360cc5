-- ===== src/Bacnet/Services/Property/RoundTrip.antt =====
-- ReadProperty and WriteProperty messages there and back: internal/bacnet/services.go.
use bacnet_ip_rest_proxy.Prelude.{
  true, ℕ, ◌≤◌, ◌<◌, ◌≡◌, refl, sym, ◌∙◌, inr, List, [], ◌∷◌, ◌++◌, append-nil, Option, none, some,
  ok, arith, length, slice_from-append,
}
use bacnet_ip_rest_proxy.Bacnet.Tag.{opening_tag, closing_tag}
use bacnet_ip_rest_proxy.Bacnet.Value.{
  decode_application_value, unsigned, Primitive, primitive, values_bytes, value_bytes, max_nesting,
}
use bacnet_ip_rest_proxy.Bacnet.Value.RoundTrip.{
  length-context_value_pos, IsPrimitive, decode_application_value-context_value,
}
use bacnet_ip_rest_proxy.Bacnet.Value.Rounds.{IsValues, nestings, expect_closing-closing_tag}
use bacnet_ip_rest_proxy.Bacnet.Value.Nested.{
  decode_values-values_bytes, expect_opening-opening_tag,
}
use bacnet_ip_rest_proxy.Bacnet.Services.Context.{optional_bytes, optional_unsigned}
use bacnet_ip_rest_proxy.Bacnet.Services.Context.Laws.{Fits, Absent-nil, Absent-opening_tag}
use bacnet_ip_rest_proxy.Bacnet.Services.Property.{
  PropertyTarget, ReadPropertyAck, WritePropertyRequest, encode_target,
  encode_read_property_request, decode_read_property_request, encode_read_property_ack,
  decode_read_property_ack, encode_write_property_request, decode_write_property_request,
  priority_at,
}
use bacnet_ip_rest_proxy.Bacnet.Services.Property.Target.{
  IsOptional, IsTarget, Fits-append_right, optional_unsigned-optional_bytes,
  decode_target-encode_target,
}

-- A ReadProperty request reads back, where its fields are in range.
pub decode_read_property_request-encode :
    (r : PropertyTarget)
    → IsTarget r
    → Fits (encode_read_property_request r)
    → decode_read_property_request (encode_read_property_request r) ≡ ok r
unfolding decode_read_property_request encode_read_property_request
decode_read_property_request-encode r h fits =
    let e = append-nil (encode_target r) in
    let back =
      decode_target-encode_target r [] h (Absent-nil 2) (rw (append-nil (encode_target r)) fits) in
    rw (rw e at back)

-- A ReadProperty acknowledgement reads back with every value of its property, constructed values
-- nested at most sixteen deep among them, where the fields are in range and no context-tagged
-- primitive has six or seven octets.
pub decode_read_property_ack-encode :
    (a : ReadPropertyAck)
    → IsTarget a.target
    → IsValues a.values
    → nestings a.values ≤ max_nesting
    → Fits (encode_read_property_ack a)
    → decode_read_property_ack (encode_read_property_ack a) ≡ ok a
unfolding decode_read_property_ack encode_read_property_ack
decode_read_property_ack-encode a h v d fits =
    let values = values_bytes a.values in
    let inner = values ++ closing_tag 3 in
    let fits1 = Fits-append_right (encode_target a.target) (opening_tag 3 ++ inner) fits in
    let fits2 = Fits-append_right (opening_tag 3) inner fits1 in
    let e = append-nil (closing_tag 3) in
    let closing = expect_closing-closing_tag 3 [] in
    rw (
      decode_target-encode_target a.target (opening_tag 3 ++ inner) h
          (Absent-opening_tag 2 3 inner refl) fits,
      expect_opening-opening_tag 3 inner,
      slice_from-append (opening_tag 3) inner,
      decode_values-values_bytes a.values (closing_tag 3) v d fits2 (inr (3, [], sym e)),
      slice_from-append values (closing_tag 3),
      (rw e at closing),
    )

priority_at-some : (buf : List ℕ) → 0 < length buf → priority_at buf ≡ optional_unsigned 8 4 buf
unfolding priority_at
priority_at-some [] h = absurd (omega arith)
priority_at-some (b ∷ rest) h = refl

-- The optional priority at the end.
priority_at-optional_bytes :
    (o : Option ℕ)
    → IsOptional 8 o
    → Fits (optional_bytes 4 o)
    → priority_at (optional_bytes 4 o) ≡ ok (o, [])
unfolding priority_at optional_bytes
priority_at-optional_bytes none h fits = refl
priority_at-optional_bytes (some v) h fits =
    let e = append-nil (optional_bytes 4 (some v)) in
    let back =
      optional_unsigned-optional_bytes 8 4 (some v) [] (omega arith) h (Absent-nil 4) (rw e fits) in
    priority_at-some (optional_bytes 4 (some v)) (length-context_value_pos true 4 (unsigned v))
    ∙ (rw e at back)

decode_application_value-value_bytes :
    (p : Primitive) (rest : List ℕ)
    → IsPrimitive p
    → Fits (value_bytes (primitive p) ++ rest)
    → decode_application_value (value_bytes (primitive p) ++ rest)
      ≡ ok (p, length (value_bytes (primitive p)))
unfolding value_bytes
decode_application_value-value_bytes p rest v fits =
    decode_application_value-context_value p rest v fits

-- A WriteProperty request with a primitive value reads back, where its fields are in range.
pub decode_write_property_request-encode :
    (t : PropertyTarget) (p : Primitive) (priority : Option ℕ)
    → IsTarget t
    → IsPrimitive p
    → IsOptional 8 priority
    → let w : WritePropertyRequest = record {
      target = t;
      value = primitive p;
      priority = priority;
    } in
      Fits (encode_write_property_request w)
      → decode_write_property_request (encode_write_property_request w) ≡ ok w
unfolding decode_write_property_request encode_write_property_request
decode_write_property_request-encode t p priority h v k fits =
    let bytes = value_bytes (primitive p) in
    let tail = optional_bytes 4 priority in
    let after = closing_tag 3 ++ tail in
    let inner = bytes ++ after in
    let fits1 = Fits-append_right (encode_target t) (opening_tag 3 ++ inner) fits in
    let fits2 = Fits-append_right (opening_tag 3) inner fits1 in
    let fits3 = Fits-append_right bytes after fits2 in
    let fits4 = Fits-append_right (closing_tag 3) tail fits3 in
    rw (
      decode_target-encode_target t (opening_tag 3 ++ inner) h (Absent-opening_tag 2 3 inner refl)
          fits,
      expect_opening-opening_tag 3 inner,
      slice_from-append (opening_tag 3) inner,
      decode_application_value-value_bytes p after v fits2,
      slice_from-append bytes after,
      expect_closing-closing_tag 3 tail,
      slice_from-append (closing_tag 3) tail,
      priority_at-optional_bytes priority k fits4,
    )
