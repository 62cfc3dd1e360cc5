-- ===== src/Bacnet/Services/Discovery/RoundTrip.antt =====
-- Who-Is and I-Am messages there and back: internal/bacnet/services.go.
use bacnet_ip_rest_proxy.Prelude.{
  ℕ, ◌%◌, ◌^◌, ◌<◌, ◌≡◌, refl, true, List, [], ◌∷◌, ◌++◌, append-nil, Option, none, some, ok, ◌>>=◌,
  arith, length, length-append, slice_from, slice_from-append,
}
use bacnet_ip_rest_proxy.Bacnet.Tag.{IsU32}
use bacnet_ip_rest_proxy.Bacnet.Primitive.Fields.{IsObjectIdentifier}
use bacnet_ip_rest_proxy.Bacnet.Value.{
  nil, cons, primitive, object_id, unsigned, enumerated, context_value, value_bytes, values_bytes,
}
use bacnet_ip_rest_proxy.Bacnet.Value.RoundTrip.{length-context_value_pos}
use bacnet_ip_rest_proxy.Bacnet.Value.Application.{decode_application_values-values_bytes}
use bacnet_ip_rest_proxy.Bacnet.Services.Context.{decode_context_unsigned}
use bacnet_ip_rest_proxy.Bacnet.Services.Context.Laws.{Fits, decode_context_unsigned-context_value}
use bacnet_ip_rest_proxy.Bacnet.Services.Discovery.{
  WhoIsRequest, IAm, encode_limits, encode_who_is_request, decode_who_is_request, encode_i_am,
  decode_i_am,
}

decode_who_is_request-pos :
    (buf : List ℕ)
    → 0 < length buf
    → decode_who_is_request buf ≡ (
        decode_context_unsigned 0 buf >>= λ (low, n). slice_from n buf >>= λ rest.
        decode_context_unsigned 1 rest >>= λ (high, m).
        ok (record { low_limit = some (low % 2 ^ 32); high_limit = some (high % 2 ^ 32) }))
unfolding decode_who_is_request
decode_who_is_request-pos [] h = absurd (omega arith)
decode_who_is_request-pos (b ∷ bs) h = refl

-- A Who-Is with both limits, of 32 bits each, reads back with both of them.
pub decode_who_is_request-encode :
    (low high : ℕ)
    → IsU32 low
    → IsU32 high
    → let r : WhoIsRequest = record { low_limit = some low; high_limit = some high } in
      Fits (encode_who_is_request r) → decode_who_is_request (encode_who_is_request r) ≡ ok r
unfolding encode_who_is_request
decode_who_is_request-encode low high h k fits =
    let a = context_value true 0 (unsigned low) in
    let b = context_value true 1 (unsigned high) in
    let pos = length-context_value_pos true 0 (unsigned low) in
    let e = append-nil b in
    let fits_b : Fits (b ++ []) = omega (arith, length-append a b, length-append b []) in
    let back = decode_context_unsigned-context_value 1 high [] k fits_b in
    let lo : low % 2 ^ 32 ≡ low = omega arith in
    let hi : high % 2 ^ 32 ≡ high = omega arith in
    rw (
      decode_who_is_request-pos (a ++ b) (omega (arith, length-append a b)),
      decode_context_unsigned-context_value 0 low b h fits,
      slice_from-append a b,
      (rw e at back),
      lo,
      hi,
    )

-- A Who-Is that lacks one of its limits is sent and read back as one without limits.
pub decode_who_is_request-unlimited :
    (limit : Option ℕ)
    → let none_left : WhoIsRequest = record { low_limit = none; high_limit = none } in
      (decode_who_is_request
          (encode_who_is_request (record { low_limit = none; high_limit = limit }))
        ≡ ok none_left)
      × (decode_who_is_request
            (encode_who_is_request (record { low_limit = limit; high_limit = none }))
          ≡ ok none_left)
unfolding encode_who_is_request encode_limits decode_who_is_request
decode_who_is_request-unlimited none = (refl, refl)
decode_who_is_request-unlimited (some l) = (refl, refl)

-- An I-Am reads back, where its fields are in range.
pub decode_i_am-encode_i_am :
    (v : IAm)
    → IsObjectIdentifier v.device
    → IsU32 v.max_apdu_length
    → IsU32 v.segmentation_supported
    → IsU32 v.vendor_id
    → Fits (encode_i_am v)
    → decode_i_am (encode_i_am v) ≡ ok v
unfolding encode_i_am decode_i_am values_bytes value_bytes
decode_i_am-encode_i_am v o m s d fits =
    let vs = cons (primitive (object_id v.device)) (
      cons (primitive (unsigned v.max_apdu_length)) (
        cons (primitive (enumerated v.segmentation_supported))
          (cons (primitive (unsigned v.vendor_id)) nil))) in
    let e : encode_i_am v ≡ values_bytes vs =
      rw (values_bytes, append-nil (value_bytes (primitive (unsigned v.vendor_id)))) in
    let back =
      decode_application_values-values_bytes vs (o, (omega arith, (s, (omega arith, tt))))
        (rw e at fits) in
    let wide_m : v.max_apdu_length % 2 ^ 32 ≡ v.max_apdu_length = omega arith in
    let wide_d : v.vendor_id % 2 ^ 32 ≡ v.vendor_id = omega arith in rw (e, back, wide_m, wide_d)
