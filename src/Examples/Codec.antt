-- ===== src/Examples/Codec.antt =====
-- The wire format's theorems at concrete octets.
use bacnet_ip_rest_proxy.Bacnet.Value.Rounds.{IsValues}
use bacnet_ip_rest_proxy.Prelude.{
  ◌^◌, ℕ, ◌≡◌, ◌≢◌, ◌≤◌, ◌<◌, refl, inl, List, [], ◌∷◌, ◌++◌, ok, panic, arith, length, Ensures,
}
use bacnet_ip_rest_proxy.Bacnet.Tag.{opening_tag, closing_tag, tag_header}
use bacnet_ip_rest_proxy.Bacnet.Primitive.{min_unsigned_bytes}
use bacnet_ip_rest_proxy.Bacnet.Value.{
  Values, primitive, context_primitive, constructed, nil, cons, unsigned, application_tag_for,
  context_value, value_bytes, values_bytes, decode_values,
}
use bacnet_ip_rest_proxy.Bacnet.Value.Nested.{decode_values-values_bytes}
use bacnet_ip_rest_proxy.Bacnet.Value.Safe.{decode_values-Ensures}
use bacnet_ip_rest_proxy.Bacnet.Value.Markers.{decode_values-context_primitive_ne}
use bacnet_ip_rest_proxy.Bacnet.Packet.{decode_incoming_packet}
use bacnet_ip_rest_proxy.Bacnet.Packet.Safe.{decode_incoming_packet-ne-panic}

abbrev sample_values : Values
sample_values =
    cons (primitive (unsigned 5))
      (cons (constructed 2 (cons (context_primitive 1 (7 ∷ 8 ∷ [])) nil)) nil)

sample_IsValues : IsValues sample_values
sample_IsValues = (omega arith, ((((λ e. omega arith), (λ e. omega arith)), tt), tt))

sample_small : length (values_bytes sample_values ++ []) < 2 ^ 32
unfolding values_bytes value_bytes context_value tag_header min_unsigned_bytes application_tag_for
    opening_tag closing_tag
sample_small = omega arith

decode_values-values_bytes_example :
    decode_values (values_bytes sample_values ++ [])
    ≡ ok (sample_values, length (values_bytes sample_values))
decode_values-values_bytes_example =
    decode_values-values_bytes sample_values [] sample_IsValues (omega arith) sample_small
      (inl refl)

decode_values-Ensures_example :
    Ensures (λ r. r.1 ≤ length {A = ℕ} (0x2e ∷ 0x21 ∷ [])) (decode_values (0x2e ∷ 0x21 ∷ []))
decode_values-Ensures_example = decode_values-Ensures (0x2e ∷ 0x21 ∷ [])

abbrev six_octets : List ℕ
six_octets = 1 ∷ 2 ∷ 3 ∷ 4 ∷ 5 ∷ 6 ∷ []

decode_values-context_primitive_ne_example :
    decode_values (value_bytes (context_primitive 2 six_octets))
    ≢ ok (cons (context_primitive 2 six_octets) nil, 8)
decode_values-context_primitive_ne_example =
    decode_values-context_primitive_ne 2 six_octets 8 (inl refl)

decode_incoming_packet-ne-panic_example :
    decode_incoming_packet (0x81 ∷ 0x0a ∷ 0x00 ∷ 0x05 ∷ 0x01 ∷ []) ≢ panic
decode_incoming_packet-ne-panic_example =
    decode_incoming_packet-ne-panic (0x81 ∷ 0x0a ∷ 0x00 ∷ 0x05 ∷ 0x01 ∷ [])
