-- ===== src/Bacnet/Services/Discovery.antt =====
-- Who-Is and I-Am, internal/bacnet/services.go.
pub mod RoundTrip
pub mod Safe
use bacnet_ip_rest_proxy.Prelude.{
  ℕ, ◌%◌, ◌^◌, true, List, [], ◌∷◌, ◌++◌, Option, none, some, Outcome, ok, err, malformed, ◌>>=◌,
  slice_from,
}
use bacnet_ip_rest_proxy.Bacnet.Primitive.{ObjectIdentifier}
use bacnet_ip_rest_proxy.Bacnet.Value.{
  Primitive, Value, Values, nil, cons, primitive, object_id, unsigned, enumerated, context_value,
  value_bytes, decode_application_values,
}
use bacnet_ip_rest_proxy.Bacnet.Services.Context.{decode_context_unsigned}

pub record WhoIsRequest : Type 0 where
  pub low_limit : Option ℕ
  pub high_limit : Option ℕ

unfoldable pub encode_limits : Option ℕ → Option ℕ → List ℕ
encode_limits (some low) (some high) =
    context_value true 0 (unsigned low) ++ context_value true 1 (unsigned high)
encode_limits _ _ = []

unfoldable pub encode_who_is_request : WhoIsRequest → List ℕ
unfolding encode_limits
encode_who_is_request r = encode_limits r.low_limit r.high_limit

unfoldable pub decode_who_is_request : List ℕ → Outcome WhoIsRequest
decode_who_is_request [] = ok (record { low_limit = none; high_limit = none })
decode_who_is_request (b ∷ bs) = do
  (low, n) ← decode_context_unsigned 0 (b ∷ bs)
  rest ← slice_from n (b ∷ bs)
  (high, m) ← decode_context_unsigned 1 rest
  ok (record { low_limit = some (low % 2 ^ 32); high_limit = some (high % 2 ^ 32) })

pub record IAm : Type 0 where
  pub device : ObjectIdentifier
  pub max_apdu_length : ℕ
  pub segmentation_supported : ℕ
  pub vendor_id : ℕ

unfoldable pub encode_i_am : IAm → List ℕ
encode_i_am v =
    value_bytes (primitive (object_id v.device))
    ++ (value_bytes (primitive (unsigned v.max_apdu_length))
        ++ (value_bytes (primitive (enumerated v.segmentation_supported))
            ++ value_bytes (primitive (unsigned v.vendor_id))))

-- The fields `Unsigned` and `Enum` of a `Value`, which are zero for values of other kinds.
unfoldable pub unsigned_field : Value → ℕ
unsigned_field (primitive (unsigned v)) = v
unsigned_field _ = 0

unfoldable pub enum_field : Value → ℕ
enum_field (primitive (enumerated v)) = v
enum_field _ = 0

unfoldable pub i_am_of : Values → Outcome IAm
unfolding unsigned_field enum_field
i_am_of (cons (primitive (object_id o)) (cons a (cons b (cons c nil)))) = ok (record {
  device = o;
  max_apdu_length = unsigned_field a % 2 ^ 32;
  segmentation_supported = enum_field b;
  vendor_id = unsigned_field c % 2 ^ 32;
})
i_am_of _ = err malformed

unfoldable pub decode_i_am : List ℕ → Outcome IAm
unfolding i_am_of
decode_i_am buf = do (values, n) ← decode_application_values buf; i_am_of values
