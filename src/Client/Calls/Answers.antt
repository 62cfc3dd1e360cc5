-- ===== src/Client/Calls/Answers.antt =====
-- What ReadProperty makes of a device's answers: internal/bacnet/client.go.
use bacnet_ip_rest_proxy.Prelude.{[], ℕ, ◌≤◌, ◌≡◌, List, [], append-nil, Outcome, ok, ◌>>=◌, length}
use bacnet_ip_rest_proxy.Bacnet.Value.{Values, max_nesting}
use bacnet_ip_rest_proxy.Bacnet.Value.Rounds.{IsValues, nestings}
use bacnet_ip_rest_proxy.Bacnet.Errors.{BacnetError, error_sequence, decode_error_sequence}
use bacnet_ip_rest_proxy.Bacnet.Errors.Laws.{IsBacnetError, decode_error_sequence-error_sequence}
use bacnet_ip_rest_proxy.Bacnet.Packet.{
  decode_apdu, encode_complex_ack, encode_error, encode_reject, encode_abort,
}
use bacnet_ip_rest_proxy.Bacnet.Packet.RoundTrip.{decode_apdu-encode}
use bacnet_ip_rest_proxy.Bacnet.Services.Context.Laws.{Fits}
use bacnet_ip_rest_proxy.Bacnet.Services.Property.{ReadPropertyAck, encode_read_property_ack}
use bacnet_ip_rest_proxy.Bacnet.Services.Property.Target.{IsTarget}
use bacnet_ip_rest_proxy.Bacnet.Services.Property.RoundTrip.{decode_read_property_ack-encode}
use bacnet_ip_rest_proxy.Client.{reply, service_error, bacnet_error, reject_error, abort_error}
use bacnet_ip_rest_proxy.Client.Calls.{CallResult, returned, refused, read_property_result}

-- The APDU of a reply, and what ReadProperty makes of it.
abbrev pub read_property_answer : List ℕ → Outcome (CallResult Values)
read_property_answer octets = decode_apdu octets >>= λ apdu. read_property_result (reply apdu)

decode_error_sequence-whole :
    (e : BacnetError)
    → IsBacnetError e
    → decode_error_sequence (error_sequence e) ≡ ok (e, length (error_sequence e))
decode_error_sequence-whole e h =
    rw (append-nil (error_sequence e)) at (decode_error_sequence-error_sequence e [] h)

-- ReadProperty returns the values that the device acknowledges, where the object, the property, the
-- index and the values' primitive data are in range (texts in valid UTF-8), no context-tagged primitive among the values has six or
-- seven octets, constructed values nest at most sixteen deep and the acknowledgement has fewer than
-- 2 ^ 32 octets. It returns the BACnet error with which the device refuses, where its class and code
-- are in range, and the reject reason or the abort reason.
pub read_property_result-answers :
    (id service reason : ℕ) (a : ReadPropertyAck) (e : BacnetError)
    → IsTarget a.target
    → IsValues a.values
    → nestings a.values ≤ max_nesting
    → Fits (encode_read_property_ack a)
    → IsBacnetError e
    → (read_property_answer (encode_complex_ack id service (encode_read_property_ack a))
        ≡ ok (returned a.values))
      × (read_property_answer (encode_error id service e) ≡ ok (refused (bacnet_error e)))
      × (read_property_answer (encode_reject id reason) ≡ ok (refused (reject_error reason)))
      × (read_property_answer (encode_abort id reason) ≡ ok (refused (abort_error reason)))
unfolding read_property_result service_error
read_property_result-answers id service reason a e t v d fits h =
    let (confirmed, unconfirmed, simple, complex, error, reject, abort) =
      decode_apdu-encode id service reason (encode_read_property_ack a) e in
    (
      rw (complex, decode_read_property_ack-encode a t v d fits),
      rw (error, decode_error_sequence-whole e h, service_error),
      rw reject,
      rw abort,
    )
