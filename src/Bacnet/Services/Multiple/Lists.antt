-- ===== src/Bacnet/Services/Multiple/Lists.antt =====
-- The loops that ReadPropertyMultiple requests and acknowledgements share, over any elements:
-- internal/bacnet/services.go.
use bacnet_ip_rest_proxy.Prelude.{
  ℕ, zero, suc, ◌<◌, ◌≡◌, refl, ap, true, false, List, [], ◌∷◌, ◌++◌, append_assoc, Outcome, ok,
  ◌>>=◌, arith, length, length-append, slice_from, slice_from-append, All,
}
use bacnet_ip_rest_proxy.Bacnet.Tag.{opening_tag, closing_tag}
use bacnet_ip_rest_proxy.Bacnet.Tag.RoundTrip.{decode_tag_header-closing_tag}
use bacnet_ip_rest_proxy.Bacnet.Primitive.{ObjectIdentifier}
use bacnet_ip_rest_proxy.Bacnet.Primitive.Fields.{IsObjectIdentifier}
use bacnet_ip_rest_proxy.Bacnet.Value.{object_id, context_value, expect_opening, expect_closing}
use bacnet_ip_rest_proxy.Bacnet.Value.RoundTrip.{length-context_value_pos}
use bacnet_ip_rest_proxy.Bacnet.Value.Rounds.{expect_closing-closing_tag}
use bacnet_ip_rest_proxy.Bacnet.Value.Nested.{expect_opening-opening_tag}
use bacnet_ip_rest_proxy.Bacnet.Services.Context.{peek_context_tag, decode_context_object_id}
use bacnet_ip_rest_proxy.Bacnet.Services.Context.Laws.{Fits, decode_context_object_id-context_value}
use bacnet_ip_rest_proxy.Bacnet.Services.Property.Target.{Fits-append_right}
use bacnet_ip_rest_proxy.Bacnet.Services.Multiple.{
  at_list_end, encode_list, encode_objects, list_loop, objects_loop,
}

at_list_end-closing_tag : (rest : List ℕ) → at_list_end (closing_tag 1 ++ rest) ≡ true
unfolding at_list_end peek_context_tag
at_list_end-closing_tag rest =
    rw (decode_tag_header-closing_tag 1 rest, peek_context_tag, at_list_end)

-- How an encoder and a decoder of list elements fit each other: an element is read back where
-- `Next` holds of what follows, which it does of the next element and of the list's end.
pub record Fitting {A : Type 0} (encode : A → List ℕ) (element : List ℕ → Outcome (A × List ℕ))
    (Good : A → Type 0) (Next : List ℕ → Type 0) : Type 0 where
  pub reads :
      (x : A) (rest : List ℕ)
      → Good x
      → Next rest
      → Fits (encode x ++ rest)
      → element (encode x ++ rest) ≡ ok (x, rest)
  pub starts : (x : A) (rest : List ℕ) → at_list_end (encode x ++ rest) ≡ false
  pub next_element : (x : A) (rest : List ℕ) → Next (encode x ++ rest)
  pub next_end : (rest : List ℕ) → Next (closing_tag 1 ++ rest)
  pub takes : (x : A) → 0 < length (encode x)

module _ {A : Type 0} {encode : A → List ℕ} {element : List ℕ → Outcome (A × List ℕ)}
    {Good : A → Type 0} {Next : List ℕ → Type 0} (fitting : Fitting encode element Good Next) where
  next-encode_list :
      (xs : List A) (rest : List ℕ) → Next (encode_list encode xs ++ (closing_tag 1 ++ rest))
  unfolding encode_list
  next-encode_list [] rest = fitting.next_end rest
  next-encode_list (x ∷ xs) rest =
      rw (append_assoc (encode x) (encode_list encode xs) (closing_tag 1 ++ rest))
        (fitting.next_element x (encode_list encode xs ++ (closing_tag 1 ++ rest)))

  list_loop-encode_list :
      (f : ℕ) (xs : List A) (rest : List ℕ)
      → All Good xs
      → length (encode_list encode xs ++ (closing_tag 1 ++ rest)) < f
      → Fits (encode_list encode xs ++ (closing_tag 1 ++ rest))
      → list_loop element f (encode_list encode xs ++ (closing_tag 1 ++ rest))
        ≡ ok (xs, closing_tag 1 ++ rest)
  unfolding list_loop encode_list
  list_loop-encode_list zero xs rest h enough fits = absurd (omega arith)
  list_loop-encode_list (suc f) [] rest h enough fits = rw (at_list_end-closing_tag rest)
  list_loop-encode_list (suc f) (x ∷ xs) rest (g, gs) enough fits =
      let tail = encode_list encode xs ++ (closing_tag 1 ++ rest) in
      let shape = append_assoc (encode x) (encode_list encode xs) (closing_tag 1 ++ rest) in
      let fits1 : Fits (encode x ++ tail) = rw shape at fits in
      let size = length-append (encode x) tail in
      let total = ap length shape in
      let takes = fitting.takes x in
      let ih =
        list_loop-encode_list f xs rest gs (omega arith)
          (Fits-append_right (encode x) tail fits1) in
      rw (shape, fitting.starts x tail, fitting.reads x tail g (next-encode_list xs rest) fits1, ih)

  abbrev pub GoodObject : ObjectIdentifier × List A → Type 0
  GoodObject o = IsObjectIdentifier o.0 × All Good o.1

  objects_loop-suc :
      (f : ℕ) (buf : List ℕ)
      → 0 < length buf
      → objects_loop element (suc f) buf ≡ (
          decode_context_object_id 0 buf >>= λ (oid, n). slice_from n buf >>= λ rest.
          expect_opening 1 rest >>= λ m. slice_from m rest >>= λ inner.
          list_loop element (suc (length inner)) inner >>= λ (xs, end).
          expect_closing 1 end >>= λ c. slice_from c end >>= λ tail.
          objects_loop element f tail >>= λ others. ok ((oid, xs) ∷ others))
  unfolding objects_loop
  objects_loop-suc f [] h = absurd (omega arith)
  objects_loop-suc f (b ∷ bs) h = refl

  objects_loop-nil : (f : ℕ) → objects_loop element (suc f) [] ≡ ok []
  unfolding objects_loop
  objects_loop-nil f = refl

  pub objects_loop-encode_objects :
      (f : ℕ) (os : List (ObjectIdentifier × List A))
      → All GoodObject os
      → length (encode_objects encode os) < f
      → Fits (encode_objects encode os)
      → objects_loop element f (encode_objects encode os) ≡ ok os
  unfolding encode_objects
  objects_loop-encode_objects zero os h enough fits = absurd (omega arith)
  objects_loop-encode_objects (suc f) [] h enough fits = objects_loop-nil f
  objects_loop-encode_objects (suc f) ((oid, xs) ∷ os) ((o, g), gs) enough fits =
      let a = context_value true 0 (object_id oid) in
      let others = encode_objects encode os in
      let end = closing_tag 1 ++ others in
      let inner = encode_list encode xs ++ end in
      let buf = a ++ (opening_tag 1 ++ inner) in
      let size_a = length-append a (opening_tag 1 ++ inner) in
      let size_opening = length-append (opening_tag 1) inner in
      let size_list = length-append (encode_list encode xs) end in
      let size_end = length-append (closing_tag 1) others in
      let taken = length-context_value_pos true 0 (object_id oid) in
      let fits1 = Fits-append_right a (opening_tag 1 ++ inner) fits in
      let fits2 = Fits-append_right (opening_tag 1) inner fits1 in
      let fits3 = Fits-append_right (encode_list encode xs) end fits2 in
      let fits4 = Fits-append_right (closing_tag 1) others fits3 in
      let ih = objects_loop-encode_objects f os gs (omega arith) fits4 in
      rw (
        objects_loop-suc f buf (omega arith),
        decode_context_object_id-context_value 0 oid (opening_tag 1 ++ inner) o fits,
        slice_from-append a (opening_tag 1 ++ inner),
        expect_opening-opening_tag 1 inner,
        slice_from-append (opening_tag 1) inner,
        list_loop-encode_list (suc (length inner)) xs others g (omega arith) fits2,
        expect_closing-closing_tag 1 others,
        slice_from-append (closing_tag 1) others,
        ih,
      )
