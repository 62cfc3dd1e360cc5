-- ===== src/Bacnet/Services/Multiple.antt =====
-- ReadPropertyMultiple, internal/bacnet/services.go.
pub mod Safe
pub mod Lists
pub mod RoundTrip
pub mod Acknowledge
use bacnet_ip_rest_proxy.Prelude.{
  ℕ, zero, suc, ◌+◌, Bool, true, false, ◌&&◌, List, [], ◌∷◌, ◌++◌, Option, none, some,
  if◌then◌else◌, ◌==◌, Outcome, ok, err, out_of_fuel, malformed, unsupported, ◌>>=◌, length,
  slice_from,
}
use bacnet_ip_rest_proxy.Bacnet.Tag.{TagInfo, opening_tag, closing_tag, is_opening, is_closing}
use bacnet_ip_rest_proxy.Bacnet.Primitive.{ObjectIdentifier}
use bacnet_ip_rest_proxy.Bacnet.Value.{
  Values, object_id, enumerated, context_value, values_bytes, decode_values, expect_opening,
  expect_closing,
}
use bacnet_ip_rest_proxy.Bacnet.Errors.{BacnetError, error_sequence, decode_error_sequence}
use bacnet_ip_rest_proxy.Bacnet.Services.Context.{
  peek_context_tag, decode_context_object_id, decode_context_enumerated, optional_plain_unsigned,
  optional_bytes,
}

pub record PropertyReference : Type 0 where
  pub property : ℕ
  pub array_index : Option ℕ

pub record ReadAccessSpec : Type 0 where
  pub object : ObjectIdentifier
  pub properties : List PropertyReference

-- A property and its optional array index, under their context tags.
unfoldable pub encode_reference : ℕ → ℕ → PropertyReference → List ℕ
encode_reference property_tag index_tag p =
    context_value true property_tag (enumerated p.property)
    ++ optional_bytes index_tag p.array_index

-- The encoders' inner loop, and their outer loop over objects.
unfoldable pub encode_list {ℓ} : {A : Type ℓ} → (A → List ℕ) → List A → List ℕ
encode_list encode [] = []
encode_list encode (x ∷ xs) = encode x ++ encode_list encode xs

unfoldable pub encode_objects {ℓ} :
    {A : Type ℓ} → (A → List ℕ) → List (ObjectIdentifier × List A) → List ℕ
unfolding encode_list
encode_objects encode [] = []
encode_objects encode ((oid, xs) ∷ others) =
    context_value true 0 (object_id oid)
    ++ (opening_tag 1 ++ (encode_list encode xs ++ (closing_tag 1 ++ encode_objects encode others)))

to_all {ℓ κ} : {A : Type ℓ} {B : Type κ} → (A → B) → List A → List B
to_all f [] = []
to_all f (x ∷ xs) = f x ∷ to_all f xs

of_spec : ReadAccessSpec → ObjectIdentifier × List PropertyReference
of_spec s = (s.object, s.properties)

unfoldable pub encode_read_property_multiple_request : List ReadAccessSpec → List ℕ
unfolding encode_objects encode_reference to_all of_spec
encode_read_property_multiple_request specs =
    encode_objects (encode_reference 0 1) (to_all of_spec specs)

-- The test that ends the inner loops.
unfoldable pub at_list_end : List ℕ → Bool
at_list_end buf = elim (peek_context_tag buf) [
  | none ↦ false
  | some th ↦ is_closing th && (th.number == 1)
]

-- A property and its optional array index, at the front of each round of the inner loops.
unfoldable pub decode_reference : ℕ → ℕ → List ℕ → Outcome (PropertyReference × List ℕ)
decode_reference property_tag index_tag buf = do
  (prop, n) ← decode_context_enumerated property_tag buf
  rest ← slice_from n buf
  (idx, rest') ← optional_plain_unsigned 32 index_tag rest
  ok (record { property = prop; array_index = idx }, rest')

-- A loop that appends one element a round until the closing tag of the list, on fuel.
pub list_loop {ℓ} :
    {A : Type ℓ} → (List ℕ → Outcome (A × List ℕ)) → ℕ → List ℕ → Outcome (List A × List ℕ)
list_loop element zero buf = out_of_fuel
list_loop element (suc fuel) buf =
    let round =
      element buf >>= λ (x, rest). list_loop element fuel rest >>= λ (xs, end). ok (x ∷ xs, end) in
    if at_list_end buf then ok ([], buf) else round

-- The outer loops: an object identifier and the list of its elements, while octets are left.
pub objects_loop {ℓ} :
    {A : Type ℓ}
    → (List ℕ → Outcome (A × List ℕ))
    → ℕ
    → List ℕ
    → Outcome (List (ObjectIdentifier × List A))
unfolding list_loop
objects_loop element zero buf = out_of_fuel
objects_loop element (suc fuel) [] = ok []
objects_loop element (suc fuel) (b ∷ bs) = do
  (oid, n) ← decode_context_object_id 0 (b ∷ bs)
  rest ← slice_from n (b ∷ bs)
  m ← expect_opening 1 rest
  inner ← slice_from m rest
  (xs, end) ← list_loop element (suc (length inner)) inner
  c ← expect_closing 1 end
  tail ← slice_from c end
  others ← objects_loop element fuel tail
  ok ((oid, xs) ∷ others)

to_spec : ObjectIdentifier × List PropertyReference → ReadAccessSpec
to_spec (oid, refs) = record { object = oid; properties = refs }

unfoldable pub decode_read_property_multiple_request : List ℕ → Outcome (List ReadAccessSpec)
unfolding objects_loop to_spec to_all decode_reference
decode_read_property_multiple_request buf = do
  specs ← objects_loop (decode_reference 0 1) (suc (length buf)) buf
  ok (to_all to_spec specs)

pub data PropertyOutcome : Type 0 where
  read_values : Values → PropertyOutcome
  read_error : BacnetError → PropertyOutcome

pub record PropertyResult : Type 0 where
  pub reference : PropertyReference
  pub outcome : PropertyOutcome

pub record ReadAccessResult : Type 0 where
  pub object : ObjectIdentifier
  pub results : List PropertyResult

unfoldable pub encode_outcome : PropertyOutcome → List ℕ
encode_outcome (read_error e) = opening_tag 5 ++ (error_sequence e ++ closing_tag 5)
encode_outcome (read_values vs) = opening_tag 4 ++ (values_bytes vs ++ closing_tag 4)

unfoldable pub encode_result : PropertyResult → List ℕ
unfolding encode_reference encode_outcome
encode_result r = encode_reference 2 3 r.reference ++ encode_outcome r.outcome

of_result : ReadAccessResult → ObjectIdentifier × List PropertyResult
of_result r = (r.object, r.results)

unfoldable pub encode_read_property_multiple_ack : List ReadAccessResult → List ℕ
unfolding encode_objects encode_result to_all of_result
encode_read_property_multiple_ack results = encode_objects encode_result (to_all of_result results)

-- The cases 4 and 5 of the opening tag, each of which steps over one octet of its closing tag.
unfoldable pub decode_read_values : List ℕ → Outcome (PropertyOutcome × List ℕ)
decode_read_values inner = do
  (values, n) ← decode_values inner
  after ← slice_from n inner
  c ← expect_closing 4 after
  tail ← slice_from 1 after
  ok (read_values values, tail)

unfoldable pub decode_read_error : List ℕ → Outcome (PropertyOutcome × List ℕ)
decode_read_error inner = do
  (e, n) ← decode_error_sequence inner
  after ← slice_from n inner
  c ← expect_closing 5 after
  tail ← slice_from 1 after
  ok (read_error e, tail)

unfoldable pub decode_outcome_at : TagInfo → List ℕ → Outcome (PropertyOutcome × List ℕ)
unfolding decode_read_values decode_read_error
decode_outcome_at th buf =
    let values = slice_from th.header buf >>= λ inner. decode_read_values inner in
    let error = slice_from th.header buf >>= λ inner. decode_read_error inner in
    if is_opening th
    then (if th.number == 4 then values else if th.number == 5 then error else err malformed)
    else err malformed

unfoldable pub decode_outcome : List ℕ → Outcome (PropertyOutcome × List ℕ)
unfolding decode_outcome_at
decode_outcome buf = elim (peek_context_tag buf) [
  | none ↦ err malformed
  | some th ↦ decode_outcome_at th buf
]

unfoldable pub decode_result : List ℕ → Outcome (PropertyResult × List ℕ)
unfolding decode_reference decode_outcome
decode_result buf = do
  (ref, rest) ← decode_reference 2 3 buf
  (outcome, rest') ← decode_outcome rest
  ok (record { reference = ref; outcome = outcome }, rest')

to_result : ObjectIdentifier × List PropertyResult → ReadAccessResult
to_result (oid, rs) = record { object = oid; results = rs }

unfoldable pub decode_read_property_multiple_ack : List ℕ → Outcome (List ReadAccessResult)
unfolding objects_loop to_result to_all decode_result
decode_read_property_multiple_ack buf = do
  results ← objects_loop decode_result (suc (length buf)) buf
  ok (to_all to_result results)
