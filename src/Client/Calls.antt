-- ===== src/Client/Calls.antt =====
-- What the client's calls return for a request's result: ReadProperty, ReadPropertyMultiple and
-- WriteProperty of internal/bacnet/client.go.
pub mod Answers
use bacnet_ip_rest_proxy.Prelude.{
  List, true, false, not, ◌==◌, if◌then◌else◌, Outcome, ok, err, panic, out_of_fuel, Error,
}
use bacnet_ip_rest_proxy.Bacnet.Value.{Values}
use bacnet_ip_rest_proxy.Bacnet.Packet.{Apdu, pdu_simple_ack, pdu_complex_ack}
use bacnet_ip_rest_proxy.Bacnet.Services.Property.{decode_read_property_ack}
use bacnet_ip_rest_proxy.Bacnet.Services.Multiple.{
  ReadAccessResult, decode_read_property_multiple_ack,
}
use bacnet_ip_rest_proxy.Client.{
  RequestResult, reply, send_error, context_error, timeout_error, ServiceError, service_error,
}

-- A call's value, or which of its errors it returns.
pub data CallResult (A : Type 0) : Type 0 where
  returned : A → CallResult A
  refused : ServiceError → CallResult A
  undecodable : Error → CallResult A
  failed : RequestResult → CallResult A

-- What is made of the decoded parameters.
abbrev pub with_decoded : {A B : Type 0} → Outcome A → (A → B) → Outcome (CallResult B)
with_decoded (ok a) f = ok (returned (f a))
with_decoded (err e) f = ok (undecodable e)
with_decoded panic f = panic
with_decoded out_of_fuel f = out_of_fuel

unfoldable pub read_property_result : RequestResult → Outcome (CallResult Values)
read_property_result (reply apdu) =
    if not (apdu.pdu_type == pdu_complex_ack)
    then ok (refused (service_error apdu pdu_complex_ack))
    else with_decoded (decode_read_property_ack apdu.params) (λ ack. ack.values)
read_property_result error = ok (failed error)

unfoldable pub read_property_multiple_result :
    RequestResult → Outcome (CallResult (List ReadAccessResult))
read_property_multiple_result (reply apdu) =
    if not (apdu.pdu_type == pdu_complex_ack)
    then ok (refused (service_error apdu pdu_complex_ack))
    else with_decoded (decode_read_property_multiple_ack apdu.params) (λ results. results)
read_property_multiple_result error = ok (failed error)

unfoldable pub write_property_result : RequestResult → Outcome (CallResult (Unit {0}))
write_property_result (reply apdu) =
    if not (apdu.pdu_type == pdu_simple_ack)
    then ok (refused (service_error apdu pdu_simple_ack))
    else ok (returned tt)
write_property_result error = ok (failed error)
