-- ===== src/Bacnet/Services/Property/Safe.antt =====
-- The ReadProperty and WriteProperty decoders on any octets: internal/bacnet/services.go.
use bacnet_ip_rest_proxy.Prelude.{
  arith, ℕ, List, [], ◌∷◌, slice_from-Ensures, Ensures, returns, Ensures-bind, Ensures-weaken,
}
use bacnet_ip_rest_proxy.Bacnet.Value.Safe.{
  decode_values-Ensures, decode_application_value-Ensures, expect_opening-Ensures,
  expect_closing-Ensures,
}
use bacnet_ip_rest_proxy.Bacnet.Services.Context.Safe.{optional_unsigned-Ensures}
use bacnet_ip_rest_proxy.Bacnet.Services.Property.{
  decode_read_property_request, decode_read_property_ack, decode_write_property_request,
  priority_at,
}
use bacnet_ip_rest_proxy.Bacnet.Services.Property.Target.{decode_target-Ensures}

pub decode_read_property_request-Ensures :
    (buf : List ℕ) → Ensures (λ r. Unit {0}) (decode_read_property_request buf)
unfolding decode_read_property_request
decode_read_property_request-Ensures buf =
    Ensures-bind (decode_target-Ensures buf) λ (t, rest) h. returns tt

-- Decoding a ReadProperty acknowledgement ends, without a slice out of bounds, on any octets.
pub decode_read_property_ack-Ensures :
    (buf : List ℕ) → Ensures (λ r. Unit {0}) (decode_read_property_ack buf)
unfolding decode_read_property_ack
decode_read_property_ack-Ensures buf = Ensures-bind (decode_target-Ensures buf) λ (t, rest) h.
    Ensures-bind (expect_opening-Ensures 3 rest) λ n k.
      Ensures-bind (slice_from-Ensures n rest (omega arith)) λ inner e.
        Ensures-bind (decode_values-Ensures inner) λ (values, m) j.
          Ensures-bind (slice_from-Ensures m inner j)
            λ after e'. Ensures-bind (expect_closing-Ensures 3 after) λ c l. returns tt

priority_at-Ensures : (buf : List ℕ) → Ensures (λ r. Unit {0}) (priority_at buf)
unfolding priority_at
priority_at-Ensures [] = returns tt
priority_at-Ensures (b ∷ rest) = Ensures-weaken (optional_unsigned-Ensures 8 4 (b ∷ rest)) λ r h. tt

-- Decoding a WriteProperty request ends, without a slice out of bounds, on any octets.
pub decode_write_property_request-Ensures :
    (buf : List ℕ) → Ensures (λ r. Unit {0}) (decode_write_property_request buf)
unfolding decode_write_property_request
decode_write_property_request-Ensures buf = Ensures-bind (decode_target-Ensures buf) λ (t, rest) h.
    Ensures-bind (expect_opening-Ensures 3 rest) λ n k.
      Ensures-bind (slice_from-Ensures n rest (omega arith)) λ inner e.
        Ensures-bind (decode_application_value-Ensures inner) λ (p, m) j.
          Ensures-bind (slice_from-Ensures m inner (omega arith)) λ after e'.
            Ensures-bind (expect_closing-Ensures 3 after) λ c l.
              Ensures-bind (slice_from-Ensures c after (omega arith))
                λ tail e''. Ensures-bind (priority_at-Ensures tail) λ (priority, end) u. returns tt
