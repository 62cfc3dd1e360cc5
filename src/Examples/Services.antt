-- ===== src/Examples/Services.antt =====
-- The theorems about service messages at concrete messages.
use bacnet_ip_rest_proxy.Prelude.{
  All, List, [], ◌∷◌, none, ◌^◌, ◌≡◌, ◌<◌, [], ◌∷◌, some, ok, arith, length,
}
use bacnet_ip_rest_proxy.Bacnet.Tag.{opening_tag, closing_tag, tag_header}
use bacnet_ip_rest_proxy.Bacnet.Primitive.{min_unsigned_bytes, encode_object_id_data}
use bacnet_ip_rest_proxy.Bacnet.Value.{
  primitive, nil, cons, unsigned, context_value, value_bytes, values_bytes, application_tag_for,
}
use bacnet_ip_rest_proxy.Bacnet.Services.Context.{optional_bytes}
use bacnet_ip_rest_proxy.Bacnet.Services.Property.{
  PropertyTarget, ReadPropertyAck, WritePropertyRequest, encode_target, encode_read_property_ack,
  encode_write_property_request, decode_write_property_request,
}
use bacnet_ip_rest_proxy.Bacnet.Services.Property.Target.{IsTarget}
use bacnet_ip_rest_proxy.Bacnet.Services.Property.RoundTrip.{decode_write_property_request-encode}
use bacnet_ip_rest_proxy.Bacnet.Services.Multiple.{
  ReadAccessResult, read_values, read_error, encode_read_property_multiple_ack,
  decode_read_property_multiple_ack,
}
use bacnet_ip_rest_proxy.Bacnet.Services.Multiple.Acknowledge.{
  IsAccessResult, decode_read_property_multiple_ack-encode,
}
use bacnet_ip_rest_proxy.Bacnet.Errors.{error_sequence}
use bacnet_ip_rest_proxy.Bacnet.Packet.{
  encode_complex_ack, encode_error, encode_reject, encode_abort,
}
use bacnet_ip_rest_proxy.Client.{bacnet_error, reject_error, abort_error}
use bacnet_ip_rest_proxy.Client.Calls.{returned, refused}
use bacnet_ip_rest_proxy.Client.Calls.Answers.{read_property_answer, read_property_result-answers}

-- Element 3 of the priority array of analog value 9.
abbrev target : PropertyTarget
target = record {
  object = record { object_type = 2; instance_number = 9 };
  property = 87;
  array_index = some 3;
}

target_IsTarget : IsTarget target
target_IsTarget = record {
  object_fits = record { type_fits = omega arith; instance_fits = omega arith };
  property_fits = omega arith;
  index_fits = omega arith;
}

abbrev ack : ReadPropertyAck
ack = record { target = target; values = cons (primitive (unsigned 300)) nil }

ack_small : length (encode_read_property_ack ack) < 2 ^ 32
unfolding encode_read_property_ack encode_target context_value tag_header min_unsigned_bytes
    encode_object_id_data optional_bytes values_bytes value_bytes application_tag_for opening_tag
    closing_tag
ack_small = omega arith

abbrev write : WritePropertyRequest
write = record { target = target; value = primitive (unsigned 300); priority = some 8 }

write_small : length (encode_write_property_request write) < 2 ^ 32
unfolding encode_write_property_request encode_target context_value tag_header min_unsigned_bytes
    encode_object_id_data optional_bytes values_bytes value_bytes application_tag_for opening_tag
    closing_tag
write_small = omega arith

decode_write_property_request-encode_example :
    decode_write_property_request (encode_write_property_request write) ≡ ok write
decode_write_property_request-encode_example =
    decode_write_property_request-encode target (unsigned 300) (some 8) target_IsTarget
      (omega arith) (omega arith) write_small

abbrev results : List ReadAccessResult
results =
    record {
      object = record { object_type = 2; instance_number = 9 };
      results =
          record {
            reference = record { property = 85; array_index = none };
            outcome = read_values (cons (primitive (unsigned 300)) nil);
          }
          ∷ record {
            reference = record { property = 87; array_index = some 3 };
            outcome = read_error (record { class = 2; error_code = 42 });
          }
          ∷ [];
    }
    ∷ []

results-IsAccessResult : All IsAccessResult results
results-IsAccessResult = (
  (
    record { type_fits = omega arith; instance_fits = omega arith },
    (
      record {
        reference_fits = record { property_fits = omega arith; index_fits = tt };
        outcome_fits = ((omega arith, tt), omega arith);
      },
      (
        record {
          reference_fits = record { property_fits = omega arith; index_fits = omega arith };
          outcome_fits = record { class_fits = omega arith; code_fits = omega arith };
        },
        tt,
      ),
    ),
  ),
  tt,
)

results_small : length (encode_read_property_multiple_ack results) < 2 ^ 32
unfolding encode_read_property_multiple_ack error_sequence values_bytes value_bytes
    application_tag_for context_value tag_header min_unsigned_bytes encode_object_id_data
    optional_bytes opening_tag closing_tag
results_small = omega arith

decode_read_property_multiple_ack-encode_example :
    decode_read_property_multiple_ack (encode_read_property_multiple_ack results) ≡ ok results
decode_read_property_multiple_ack-encode_example =
    decode_read_property_multiple_ack-encode results results-IsAccessResult results_small

read_property_result-answers_example :
    (read_property_answer (encode_complex_ack 7 12 (encode_read_property_ack ack))
      ≡ ok (returned ack.values))
    × (read_property_answer (encode_error 7 12 (record { class = 1; error_code = 31 }))
        ≡ ok (refused (bacnet_error (record { class = 1; error_code = 31 }))))
    × (read_property_answer (encode_reject 7 4) ≡ ok (refused (reject_error 4)))
    × (read_property_answer (encode_abort 7 4) ≡ ok (refused (abort_error 4)))
read_property_result-answers_example =
    read_property_result-answers 7 12 4 ack (record { class = 1; error_code = 31 }) target_IsTarget
      (omega arith, tt) (omega arith) ack_small
      (record { class_fits = omega arith; code_fits = omega arith })
