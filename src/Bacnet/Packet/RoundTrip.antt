-- ===== src/Bacnet/Packet/RoundTrip.antt =====
-- Packets and APDUs there and back: internal/bacnet/apdu.go, npdu.go and bvlc.go.
use bacnet_ip_rest_proxy.Prelude.{
  ℕ, suc, ◌+◌, ◌*◌, ◌/◌, ◌%◌, ◌^◌, ◌<◌, bit_or, ◌≡◌, refl, List, [], ◌∷◌, le→leb, le→ltb_false,
  ◌==◌, ==_iff, ok, arith, length, slice_from, Bool-cases, inl, inr,
}
use bacnet_ip_rest_proxy.Prelude.Bits.{bit_or-shift}
use bacnet_ip_rest_proxy.Bacnet.Errors.{BacnetError, error_sequence}
use bacnet_ip_rest_proxy.Bacnet.Packet.{
  Apdu, encode_confirmed_request, encode_unconfirmed_request, encode_simple_ack, encode_complex_ack,
  encode_error, encode_reject, encode_abort, decode_apdu, encode_npdu, decode_npdu,
  encode_unicast_packet, decode_incoming_packet, pdu_confirmed_request, pdu_unconfirmed_request,
  pdu_simple_ack, pdu_complex_ack, pdu_error, pdu_reject, pdu_abort,
}

-- The NPDU of a non-empty APDU is stripped.
pub decode_npdu-encode_npdu :
    (apdu : List ℕ) → 0 < length apdu → decode_npdu (encode_npdu apdu) ≡ ok apdu
unfolding decode_npdu encode_npdu slice_from
decode_npdu-encode_npdu [] h = absurd (omega arith)
decode_npdu-encode_npdu (first ∷ rest) h = elim (Bool-cases (first / 16 == 0)) [
  | inl e ↦ rw e (ground arith)
  | inr e ↦ rw e (ground arith)
]

abbrev total : List ℕ → ℕ
total apdu = 4 + length (encode_npdu apdu)

-- Unwrapping a packet that carries a non-empty APDU, of a length that the 16-bit length field
-- holds, is decoding that APDU.
pub decode_incoming_packet-encode_unicast_packet :
    (apdu : List ℕ)
    → 0 < length apdu
    → total apdu < 2 ^ 16
    → decode_incoming_packet (encode_unicast_packet apdu) ≡ decode_apdu apdu
unfolding decode_incoming_packet encode_unicast_packet slice_from
decode_incoming_packet-encode_unicast_packet apdu pos fits =
    let size : bit_or (total apdu / 256 % 256 * 256) (total apdu % 256) ≡ total apdu =
      omega (arith, bit_or-shift 8 (total apdu / 256 % 256) (total apdu % 256) (omega arith)) in
    rw (
      size,
      (==_iff (total apdu) (suc (suc (suc (suc (length (encode_npdu apdu))))))).1 (omega arith),
      le→ltb_false (suc (suc (suc (suc (length (encode_npdu apdu)))))) 4 (omega arith),
      le→leb 4 (suc (suc (suc (suc (length (encode_npdu apdu)))))) (omega arith),
      decode_npdu-encode_npdu apdu pos,
    )

-- What the fields of a decoded APDU are to be.
abbrev request_apdu : ℕ → ℕ → ℕ → List ℕ → Apdu
request_apdu pdu_type invoke_id service_choice params = record {
  pdu_type = pdu_type;
  invoke_id = invoke_id;
  service_choice = service_choice;
  reject_reason = 0;
  abort_reason = 0;
  params = params;
}

abbrev refusal_apdu : ℕ → ℕ → ℕ → ℕ → Apdu
refusal_apdu pdu_type invoke_id reject_reason abort_reason = record {
  pdu_type = pdu_type;
  invoke_id = invoke_id;
  service_choice = 0;
  reject_reason = reject_reason;
  abort_reason = abort_reason;
  params = [];
}

-- Each of the seven kinds of APDU reads back with all its fields.
pub decode_apdu-encode :
    (id service reason : ℕ) (params : List ℕ) (e : BacnetError)
    → (decode_apdu (encode_confirmed_request id service params)
        ≡ ok (request_apdu pdu_confirmed_request id service params))
      × (decode_apdu (encode_unconfirmed_request service params)
          ≡ ok (request_apdu pdu_unconfirmed_request 0 service params))
      × (decode_apdu (encode_simple_ack id service)
          ≡ ok (request_apdu pdu_simple_ack id service []))
      × (decode_apdu (encode_complex_ack id service params)
          ≡ ok (request_apdu pdu_complex_ack id service params))
      × (decode_apdu (encode_error id service e)
          ≡ ok (request_apdu pdu_error id service (error_sequence e)))
      × (decode_apdu (encode_reject id reason) ≡ ok (refusal_apdu pdu_reject id reason 0))
      × (decode_apdu (encode_abort id reason) ≡ ok (refusal_apdu pdu_abort id 0 reason))
unfolding decode_apdu encode_confirmed_request encode_unconfirmed_request encode_simple_ack
    encode_complex_ack encode_error encode_reject encode_abort
decode_apdu-encode id service reason params e = (refl, refl, refl, refl, refl, refl, refl)
