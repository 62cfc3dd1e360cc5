-- ===== src/Bacnet/Packet.antt =====
-- Packets: APDU headers (apdu.go), the network layer (npdu.go) and the BACnet/IP link layer
-- (bvlc.go) of internal/bacnet.
pub mod RoundTrip
pub mod Safe
use bacnet_ip_rest_proxy.Prelude.{
  ℕ, zero, suc, ◌+◌, ◌*◌, ◌/◌, ◌%◌, bit_and, bit_or, Bool, true, false, not, ◌||◌, List, [], ◌∷◌,
  ◌++◌, Option, none, some, ltb, ◌==◌, if◌then◌else◌, Outcome, ok, err, panic, truncated,
  unsupported, mismatch, ◌>>=◌, ◌>>◌, guard, length, slice_from, get_elem?,
}
use bacnet_ip_rest_proxy.Bacnet.Primitive.BitString.{index}
use bacnet_ip_rest_proxy.Bacnet.Errors.{BacnetError, error_sequence}

abbrev pub pdu_confirmed_request : ℕ
pdu_confirmed_request = 0

abbrev pub pdu_unconfirmed_request : ℕ
pdu_unconfirmed_request = 1

abbrev pub pdu_simple_ack : ℕ
pdu_simple_ack = 2

abbrev pub pdu_complex_ack : ℕ
pdu_complex_ack = 3

abbrev pub pdu_error : ℕ
pdu_error = 5

abbrev pub pdu_reject : ℕ
pdu_reject = 6

abbrev pub pdu_abort : ℕ
pdu_abort = 7

-- `APDU`; a field that its type does not use is 0 or empty.
pub record Apdu : Type 0 where
  pub pdu_type : ℕ
  pub invoke_id : ℕ
  pub service_choice : ℕ
  pub reject_reason : ℕ
  pub abort_reason : ℕ
  pub params : List ℕ

unfoldable pub encode_confirmed_request : ℕ → ℕ → List ℕ → List ℕ
encode_confirmed_request invoke_id service_choice params =
    (0x00 ∷ 0x05 ∷ invoke_id ∷ service_choice ∷ []) ++ params

unfoldable pub encode_unconfirmed_request : ℕ → List ℕ → List ℕ
encode_unconfirmed_request service_choice params =
    (pdu_unconfirmed_request * 16 % 256 ∷ service_choice ∷ []) ++ params

unfoldable pub encode_simple_ack : ℕ → ℕ → List ℕ
encode_simple_ack invoke_id service_choice =
    pdu_simple_ack * 16 % 256 ∷ invoke_id ∷ service_choice ∷ []

unfoldable pub encode_complex_ack : ℕ → ℕ → List ℕ → List ℕ
encode_complex_ack invoke_id service_choice params =
    (pdu_complex_ack * 16 % 256 ∷ invoke_id ∷ service_choice ∷ []) ++ params

unfoldable pub encode_error : ℕ → ℕ → BacnetError → List ℕ
encode_error invoke_id service_choice e =
    (pdu_error * 16 % 256 ∷ invoke_id ∷ service_choice ∷ []) ++ error_sequence e

unfoldable pub encode_reject : ℕ → ℕ → List ℕ
encode_reject invoke_id reason = pdu_reject * 16 % 256 ∷ invoke_id ∷ reason ∷ []

unfoldable pub encode_abort : ℕ → ℕ → List ℕ
encode_abort invoke_id reason = bit_or (pdu_abort * 16 % 256) 0x01 ∷ invoke_id ∷ reason ∷ []

-- The cases of `DecodeAPDU`, each on the octets after the first.
confirmed_request_of : List ℕ → Outcome Apdu
confirmed_request_of (max_length ∷ invoke_id ∷ service_choice ∷ params) = ok (record {
  pdu_type = pdu_confirmed_request;
  invoke_id = invoke_id;
  service_choice = service_choice;
  reject_reason = 0;
  abort_reason = 0;
  params = params;
})
confirmed_request_of _ = err truncated

unconfirmed_request_of : List ℕ → Outcome Apdu
unconfirmed_request_of (service_choice ∷ params) = ok (record {
  pdu_type = pdu_unconfirmed_request;
  invoke_id = 0;
  service_choice = service_choice;
  reject_reason = 0;
  abort_reason = 0;
  params = params;
})
unconfirmed_request_of _ = err truncated

-- A reply that answers a service; a simple acknowledgement has no parameters.
reply_of : ℕ → Bool → List ℕ → Outcome Apdu
reply_of pdu_type has_params (invoke_id ∷ service_choice ∷ params) = ok (record {
  pdu_type = pdu_type;
  invoke_id = invoke_id;
  service_choice = service_choice;
  reject_reason = 0;
  abort_reason = 0;
  params = if has_params then params else [];
})
reply_of pdu_type has_params _ = err truncated

reject_of : List ℕ → Outcome Apdu
reject_of (invoke_id ∷ reason ∷ rest) = ok (record {
  pdu_type = pdu_reject;
  invoke_id = invoke_id;
  service_choice = 0;
  reject_reason = reason;
  abort_reason = 0;
  params = [];
})
reject_of _ = err truncated

abort_of : List ℕ → Outcome Apdu
abort_of (invoke_id ∷ reason ∷ rest) = ok (record {
  pdu_type = pdu_abort;
  invoke_id = invoke_id;
  service_choice = 0;
  reject_reason = 0;
  abort_reason = reason;
  params = [];
})
abort_of _ = err truncated

-- `DecodeAPDU`
unfoldable pub decode_apdu : List ℕ → Outcome Apdu
unfolding confirmed_request_of unconfirmed_request_of reply_of reject_of abort_of
decode_apdu [] = err truncated
decode_apdu (first ∷ rest) =
    let pdu_type = first / 16 in
    let segmented = not (bit_and first 0x08 == 0) in
    if pdu_type == pdu_confirmed_request
    then (if segmented then err unsupported else confirmed_request_of rest)
    else if pdu_type == pdu_unconfirmed_request
    then unconfirmed_request_of rest
    else if pdu_type == pdu_simple_ack
    then reply_of pdu_simple_ack false rest
    else if pdu_type == pdu_complex_ack
    then (if segmented then err unsupported else reply_of pdu_complex_ack true rest)
    else if pdu_type == pdu_error
    then reply_of pdu_error true rest
    else if pdu_type == pdu_reject
    then reject_of rest
    else if pdu_type == pdu_abort
    then abort_of rest
    else err unsupported

-- `encodeNPDU`: the control octet asks for a reply to a confirmed request.
npdu_control : List ℕ → ℕ
npdu_control [] = 0x00
npdu_control (first ∷ rest) = if first / 16 == pdu_confirmed_request then bit_or 0x00 0x04 else 0x00

unfoldable pub encode_npdu : List ℕ → List ℕ
unfolding npdu_control
encode_npdu apdu = (0x01 ∷ npdu_control apdu ∷ []) ++ apdu

-- The address field of `decodeNPDU` at `pos`, where the control bit announces it.
skip_address : Bool → List ℕ → ℕ → Outcome ℕ
skip_address present buf pos =
    if present
    then (guard (not (ltb (length buf) (pos + 3))) truncated
        >> (index buf (pos + 2) >>= λ len. ok (pos + (3 + len))))
    else ok pos

-- `decodeNPDU`
unfoldable pub decode_npdu : List ℕ → Outcome (List ℕ)
unfolding skip_address
decode_npdu buf = do
  guard (not (ltb (length buf) 2)) truncated
  control ← index buf 1
  guard (bit_and control 0x80 == 0) unsupported
  let destination = not (bit_and control 0x20 == 0)
  let source = not (bit_and control 0x08 == 0)
  pos ← skip_address destination buf 2
  pos' ← skip_address source buf pos
  let pos'' = if destination then pos' + 1 else pos'
  guard (not (ltb (length buf) (pos'' + 1))) truncated
  slice_from pos'' buf

abbrev pub bvlc_type_ip : ℕ
bvlc_type_ip = 0x81

abbrev pub bvlc_forwarded_npdu : ℕ
bvlc_forwarded_npdu = 0x04

abbrev pub bvlc_original_unicast : ℕ
bvlc_original_unicast = 0x0a

abbrev pub bvlc_original_broadcast : ℕ
bvlc_original_broadcast = 0x0b

-- `EncodeUnicastPacket`
unfoldable pub encode_unicast_packet : List ℕ → List ℕ
encode_unicast_packet apdu =
    let npdu = encode_npdu apdu in
    let total = 4 + length npdu in
    (bvlc_type_ip ∷ bvlc_original_unicast ∷ (total / 256 % 256) ∷ (total % 256) ∷ []) ++ npdu

-- The octets in front of the NPDU, by the function code.
bvlc_header : ℕ → Outcome ℕ
bvlc_header function =
    if function == bvlc_original_unicast || function == bvlc_original_broadcast
    then ok 4
    else if function == bvlc_forwarded_npdu
    then ok (4 + 6)
    else err unsupported

-- `DecodeIncomingPacket`
unfoldable pub decode_incoming_packet : List ℕ → Outcome Apdu
unfolding bvlc_header
decode_incoming_packet (type ∷ function ∷ high ∷ low ∷ rest) = do
  let pkt = type ∷ function ∷ high ∷ low ∷ rest
  guard (type == bvlc_type_ip) unsupported
  header ← bvlc_header function
  guard (bit_or (high * 256) low == length pkt) mismatch
  guard (not (ltb (length pkt) header)) truncated
  npdu ← slice_from header pkt
  apdu ← decode_npdu npdu
  decode_apdu apdu
decode_incoming_packet _ = err truncated
