-- ===== src/Bacnet/Services/Multiple/Acknowledge.antt =====
-- ReadPropertyMultiple acknowledgements there and back: internal/bacnet/services.go.
use bacnet_ip_rest_proxy.Prelude.{
  ℕ, suc, ◌≤◌, ◌≡◌, refl, ap, inr, true, List, [], ◌∷◌, ◌++◌, append_assoc, ok, arith, length,
  length-append, slice_from, slice_from-append, All,
}
use bacnet_ip_rest_proxy.Bacnet.Tag.{opening_tag, closing_tag}
use bacnet_ip_rest_proxy.Bacnet.Tag.RoundTrip.{tag_info}
use bacnet_ip_rest_proxy.Bacnet.Primitive.Fields.{IsObjectIdentifier}
use bacnet_ip_rest_proxy.Bacnet.Value.{values_bytes, max_nesting}
use bacnet_ip_rest_proxy.Bacnet.Value.Rounds.{IsValues, nestings, expect_closing-closing_tag}
use bacnet_ip_rest_proxy.Bacnet.Value.Nested.{decode_values-values_bytes}
use bacnet_ip_rest_proxy.Bacnet.Errors.{error_sequence}
use bacnet_ip_rest_proxy.Bacnet.Errors.Laws.{IsBacnetError, decode_error_sequence-error_sequence}
use bacnet_ip_rest_proxy.Bacnet.Services.Context.Laws.{
  Fits, AbsentPlain, peek_context_tag-opening_tag,
}
use bacnet_ip_rest_proxy.Bacnet.Services.Property.Target.{Fits-append_right}
use bacnet_ip_rest_proxy.Bacnet.Services.Multiple.{
  PropertyOutcome, read_values, read_error, PropertyResult, ReadAccessResult, encode_reference,
  encode_outcome, encode_result, decode_outcome, decode_outcome_at, decode_result,
  encode_read_property_multiple_ack, decode_read_property_multiple_ack, to_all, to_result,
  of_result,
}
use bacnet_ip_rest_proxy.Bacnet.Services.Multiple.Lists.{
  Fitting, GoodObject, objects_loop-encode_objects,
}
use bacnet_ip_rest_proxy.Bacnet.Services.Multiple.RoundTrip.{
  IsReference, decode_reference-encode_reference, number-AbsentPlain, encode_reference-AbsentPlain,
  at_list_end-encode_reference, closing_tag-AbsentPlain, encode_reference-pos,
}

abbrev pub IsOutcome : PropertyOutcome → Type 0
IsOutcome (read_values vs) = IsValues vs × (nestings vs ≤ max_nesting)
IsOutcome (read_error e) = IsBacnetError e

slice_from-closing_tag_4 : (rest : List ℕ) → slice_from 1 (closing_tag 4 ++ rest) ≡ ok rest
unfolding closing_tag
slice_from-closing_tag_4 rest = slice_from-append (closing_tag 4) rest

slice_from-closing_tag_5 : (rest : List ℕ) → slice_from 1 (closing_tag 5 ++ rest) ≡ ok rest
unfolding closing_tag
slice_from-closing_tag_5 rest = slice_from-append (closing_tag 5) rest

decode_outcome-opening_tag :
    (t : ℕ) (inner : List ℕ)
    → decode_outcome (opening_tag t ++ inner)
      ≡ decode_outcome_at (tag_info t true 6 (length (opening_tag t))) (opening_tag t ++ inner)
unfolding decode_outcome
decode_outcome-opening_tag t inner = rw (peek_context_tag-opening_tag t inner, decode_outcome)

decode_outcome-encode_outcome :
    (o : PropertyOutcome) (rest : List ℕ)
    → IsOutcome o
    → Fits (encode_outcome o ++ rest)
    → decode_outcome (encode_outcome o ++ rest) ≡ ok (o, rest)
unfolding decode_outcome_at encode_outcome
decode_outcome-encode_outcome (read_values vs) rest (v, d) fits =
    let end = closing_tag 4 ++ rest in
    let inner = values_bytes vs ++ end in
    let shape : (opening_tag 4 ++ (values_bytes vs ++ closing_tag 4)) ++ rest
        ≡ opening_tag 4 ++ inner =
      simp append_assoc in
    let fits1 : Fits (opening_tag 4 ++ inner) = rw shape at fits in
    rw (
      shape,
      decode_outcome-opening_tag 4 inner,
      slice_from-append (opening_tag 4) inner,
      decode_values-values_bytes vs end v d (Fits-append_right (opening_tag 4) inner fits1)
          (inr (4, rest, refl)),
      slice_from-append (values_bytes vs) end,
      expect_closing-closing_tag 4 rest,
      slice_from-closing_tag_4 rest,
    )
decode_outcome-encode_outcome (read_error e) rest h fits =
    let end = closing_tag 5 ++ rest in
    let inner = error_sequence e ++ end in
    let shape : (opening_tag 5 ++ (error_sequence e ++ closing_tag 5)) ++ rest
        ≡ opening_tag 5 ++ inner =
      simp append_assoc in
    rw (
      shape,
      decode_outcome-opening_tag 5 inner,
      slice_from-append (opening_tag 5) inner,
      decode_error_sequence-error_sequence e end h,
      slice_from-append (error_sequence e) end,
      expect_closing-closing_tag 5 rest,
      slice_from-closing_tag_5 rest,
    )

encode_outcome-AbsentPlain :
    (o : PropertyOutcome) (rest : List ℕ) → AbsentPlain 3 (encode_outcome o ++ rest)
unfolding encode_outcome
encode_outcome-AbsentPlain (read_values vs) rest =
    let body = values_bytes vs ++ closing_tag 4 in
    let shape = append_assoc (opening_tag 4) body rest in
    rw shape (
      number-AbsentPlain 3 4 6 _ (opening_tag 4 ++ (body ++ rest)) refl
        (peek_context_tag-opening_tag 4 (body ++ rest)))
encode_outcome-AbsentPlain (read_error e) rest =
    let body = error_sequence e ++ closing_tag 5 in
    let shape = append_assoc (opening_tag 5) body rest in
    rw shape (
      number-AbsentPlain 3 5 6 _ (opening_tag 5 ++ (body ++ rest)) refl
        (peek_context_tag-opening_tag 5 (body ++ rest)))

pub record IsResult (r : PropertyResult) : Type 0 where
  pub reference_fits : IsReference r.reference
  pub outcome_fits : IsOutcome r.outcome

decode_result-encode_result :
    (r : PropertyResult) (rest : List ℕ)
    → IsResult r
    → Fits (encode_result r ++ rest)
    → decode_result (encode_result r ++ rest) ≡ ok (r, rest)
unfolding decode_result encode_result
decode_result-encode_result r rest h fits =
    let a = encode_reference 2 3 r.reference in
    let b = encode_outcome r.outcome in
    let shape = append_assoc a b rest in
    let fits1 : Fits (a ++ (b ++ rest)) = rw shape at fits in
    rw (
      shape,
      decode_reference-encode_reference 2 3 r.reference (b ++ rest) h.reference_fits
          (encode_outcome-AbsentPlain r.outcome rest) fits1,
      decode_outcome-encode_outcome r.outcome rest h.outcome_fits
          (Fits-append_right a (b ++ rest) fits1),
    )

results_fit : Fitting encode_result decode_result IsResult (AbsentPlain 1)
unfolding encode_result
results_fit = record {
  reads = λ r rest h next fits. decode_result-encode_result r rest h fits;
  starts = λ r rest.
      rw (append_assoc (encode_reference 2 3 r.reference) (encode_outcome r.outcome) rest)
        (at_list_end-encode_reference 2 3 r.reference (encode_outcome r.outcome ++ rest) refl);
  next_element = λ r rest.
      rw (append_assoc (encode_reference 2 3 r.reference) (encode_outcome r.outcome) rest)
        (encode_reference-AbsentPlain 1 2 3 r.reference (encode_outcome r.outcome ++ rest) refl);
  next_end = λ rest. closing_tag-AbsentPlain 1 1 rest;
  takes = λ r. omega (
    arith,
    encode_reference-pos 2 3 r.reference,
    length-append (encode_reference 2 3 r.reference) (encode_outcome r.outcome),
  );
}

to_all-of_result :
    (results : List ReadAccessResult) → to_all to_result (to_all of_result results) ≡ results
unfolding to_all to_result of_result
to_all-of_result [] = refl
to_all-of_result (r ∷ rs) = ap (λ l. r ∷ l) (to_all-of_result rs)

abbrev pub IsAccessResult : ReadAccessResult → Type 0
IsAccessResult r = IsObjectIdentifier r.object × All IsResult r.results

results_good :
    (results : List ReadAccessResult)
    → All IsAccessResult results
    → All (GoodObject results_fit) (to_all of_result results)
unfolding to_all of_result
results_good [] h = tt
results_good (r ∷ rs) (g, gs) = (g, results_good rs gs)

-- A ReadPropertyMultiple acknowledgement reads back with the values or the error of every
-- property, where the objects, properties, indexes, errors and primitive data in it are in range
-- (texts in valid UTF-8), no
-- context-tagged primitive has six or seven octets, the values of a property nest at most sixteen
-- deep and the whole has fewer than 2 ^ 32 octets.
pub decode_read_property_multiple_ack-encode :
    (results : List ReadAccessResult)
    → All IsAccessResult results
    → Fits (encode_read_property_multiple_ack results)
    → decode_read_property_multiple_ack (encode_read_property_multiple_ack results) ≡ ok results
unfolding decode_read_property_multiple_ack encode_read_property_multiple_ack
decode_read_property_multiple_ack-encode results h fits =
    let buf = encode_read_property_multiple_ack results in
    let back =
      objects_loop-encode_objects results_fit (suc (length buf)) (to_all of_result results)
        (results_good results h) (omega arith) fits in
    rw (back, to_all-of_result results)
