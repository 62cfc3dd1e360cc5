-- ===== src/Bacnet/Services/Multiple/RoundTrip.antt =====
-- ReadPropertyMultiple requests there and back: internal/bacnet/services.go.
use bacnet_ip_rest_proxy.Prelude.{
  ℕ, suc, ◌<◌, ◌≡◌, refl, sym, ap, ◌∙◌, Bool, true, false, ◌&&◌, List, [], ◌∷◌, ◌++◌, append_assoc,
  Option, none, some, ◌==◌, ok, arith, length, length-append, slice_from-append, All,
}
use bacnet_ip_rest_proxy.Bacnet.Tag.{IsU32, TagInfo, closing_tag, is_closing}
use bacnet_ip_rest_proxy.Bacnet.Tag.RoundTrip.{tag_info, decode_tag_header-closing_tag}
use bacnet_ip_rest_proxy.Bacnet.Primitive.{min_unsigned_bytes}
use bacnet_ip_rest_proxy.Bacnet.Primitive.Fields.{IsObjectIdentifier}
use bacnet_ip_rest_proxy.Bacnet.Value.{enumerated, context_value}
use bacnet_ip_rest_proxy.Bacnet.Value.RoundTrip.{length-context_value_pos}
use bacnet_ip_rest_proxy.Bacnet.Services.Context.{
  peek_context_tag, plain_tag, optional_plain_unsigned, optional_bytes,
}
use bacnet_ip_rest_proxy.Bacnet.Services.Context.Laws.{
  Fits, AbsentPlain, decode_context_enumerated-context_value, peek_context_tag-unsigned,
  optional_plain_unsigned-AbsentPlain, optional_plain_unsigned-present,
}
use bacnet_ip_rest_proxy.Bacnet.Services.Property.Target.{IsOptional, Fits-append_right}
use bacnet_ip_rest_proxy.Bacnet.Services.Multiple.{
  PropertyReference, ReadAccessSpec, at_list_end, encode_reference, decode_reference,
  encode_read_property_multiple_request, decode_read_property_multiple_request, to_all, to_spec,
  of_spec,
}
use bacnet_ip_rest_proxy.Bacnet.Services.Multiple.Lists.{
  Fitting, GoodObject, objects_loop-encode_objects,
}
use mathlib.Core.Path.{subst}

pub record IsReference (r : PropertyReference) : Type 0 where
  pub property_fits : IsU32 r.property
  pub index_fits : IsOptional 32 r.array_index

optional_plain_unsigned-optional_bytes :
    (tag : ℕ) (o : Option ℕ) (rest : List ℕ)
    → IsOptional 32 o
    → AbsentPlain tag rest
    → Fits (optional_bytes tag o ++ rest)
    → optional_plain_unsigned 32 tag (optional_bytes tag o ++ rest) ≡ ok (o, rest)
unfolding optional_bytes
optional_plain_unsigned-optional_bytes tag none rest h absent fits =
    optional_plain_unsigned-AbsentPlain 32 tag rest absent
optional_plain_unsigned-optional_bytes tag (some v) rest h absent fits =
    optional_plain_unsigned-present 32 tag v rest h h fits

pub decode_reference-encode_reference :
    (p i : ℕ) (r : PropertyReference) (rest : List ℕ)
    → IsReference r
    → AbsentPlain i rest
    → Fits (encode_reference p i r ++ rest)
    → decode_reference p i (encode_reference p i r ++ rest) ≡ ok (r, rest)
unfolding decode_reference encode_reference
decode_reference-encode_reference p i r rest h absent fits =
    let a = context_value true p (enumerated r.property) in
    let b = optional_bytes i r.array_index in
    let shape = append_assoc a b rest in
    let fits1 : Fits (a ++ (b ++ rest)) = rw shape at fits in
    rw (
      shape,
      decode_context_enumerated-context_value p r.property (b ++ rest) h.property_fits fits1,
      slice_from-append a (b ++ rest),
      optional_plain_unsigned-optional_bytes i r.array_index rest h.index_fits absent
          (Fits-append_right a (b ++ rest) fits1),
    )

-- What is seen at the front of a reference: a context tag with the property's number.
peek_context_tag-encode_reference :
    (p i : ℕ) (r : PropertyReference) (rest : List ℕ)
    → (l h : ℕ) × (peek_context_tag (encode_reference p i r ++ rest) ≡ some (tag_info p true l h))
unfolding encode_reference context_value
peek_context_tag-encode_reference p i r rest =
    let b = optional_bytes i r.array_index in
    let (h, e) = peek_context_tag-unsigned p r.property (b ++ rest) in
    let shape = append_assoc (context_value true p (enumerated r.property)) b rest in
    (length (min_unsigned_bytes r.property), h, rw shape e)

-- A context tag with another number than `want` is in front.
pub number-AbsentPlain :
    (want p l h : ℕ) (buf : List ℕ)
    → (p == want) ≡ false
    → peek_context_tag buf ≡ some (tag_info p true l h)
    → AbsentPlain want buf
unfolding plain_tag
number-AbsentPlain want p l h buf ne e th k =
    let same : tag_info p true l h ≡ th = some_eq (sym e ∙ k) in
    subst (λ t. plain_tag want t ≡ false) same (rw ne)
  where
    some_eq : {a b : TagInfo} → some a ≡ some b → a ≡ b
    some_eq = cc

pub encode_reference-AbsentPlain :
    (want p i : ℕ) (r : PropertyReference) (rest : List ℕ)
    → (p == want) ≡ false
    → AbsentPlain want (encode_reference p i r ++ rest)
encode_reference-AbsentPlain want p i r rest ne =
    let (l, h, e) = peek_context_tag-encode_reference p i r rest in
    number-AbsentPlain want p l h (encode_reference p i r ++ rest) ne e

pub at_list_end-encode_reference :
    (p i : ℕ) (r : PropertyReference) (rest : List ℕ)
    → (p == 1) ≡ false
    → at_list_end (encode_reference p i r ++ rest) ≡ false
unfolding at_list_end
at_list_end-encode_reference p i r rest ne =
    let (l, h, e) = peek_context_tag-encode_reference p i r rest in
    rw (e, at_list_end, ne) (and_false (is_closing (tag_info p true l h)))
  where
    and_false : (b : Bool) → b && false ≡ false
    and_false b = ground arith

peek_context_tag-closing_tag :
    (t : ℕ) (rest : List ℕ)
    → peek_context_tag (closing_tag t ++ rest) ≡ some (tag_info t true 7 (length (closing_tag t)))
unfolding peek_context_tag
peek_context_tag-closing_tag t rest = rw (decode_tag_header-closing_tag t rest, peek_context_tag)

pub closing_tag-AbsentPlain :
    (want t : ℕ) (rest : List ℕ) → AbsentPlain want (closing_tag t ++ rest)
unfolding plain_tag
closing_tag-AbsentPlain want t rest th k =
    let same : tag_info t true 7 (length (closing_tag t)) ≡ th =
      some_eq (sym (peek_context_tag-closing_tag t rest) ∙ k) in
    subst (λ x. plain_tag want x ≡ false) same (and_false (t == want))
  where
    some_eq : {a b : TagInfo} → some a ≡ some b → a ≡ b
    some_eq = cc

    and_false : (b : Bool) → b && false ≡ false
    and_false b = ground arith

pub encode_reference-pos : (p i : ℕ) (r : PropertyReference) → 0 < length (encode_reference p i r)
unfolding encode_reference
encode_reference-pos p i r =
    let a = context_value true p (enumerated r.property) in
    let taken = length-context_value_pos true p (enumerated r.property) in
    let size = length-append a (optional_bytes i r.array_index) in omega arith

references_fit : Fitting (encode_reference 0 1) (decode_reference 0 1) IsReference (AbsentPlain 1)
references_fit = record {
  reads = λ r rest h next fits. decode_reference-encode_reference 0 1 r rest h next fits;
  starts = λ r rest. at_list_end-encode_reference 0 1 r rest refl;
  next_element = λ r rest. encode_reference-AbsentPlain 1 0 1 r rest refl;
  next_end = λ rest. closing_tag-AbsentPlain 1 1 rest;
  takes = λ r. encode_reference-pos 0 1 r;
}

to_all-of_spec : (specs : List ReadAccessSpec) → to_all to_spec (to_all of_spec specs) ≡ specs
unfolding to_all to_spec of_spec
to_all-of_spec [] = refl
to_all-of_spec (s ∷ ss) = ap (λ l. s ∷ l) (to_all-of_spec ss)

abbrev pub IsSpec : ReadAccessSpec → Type 0
IsSpec s = IsObjectIdentifier s.object × All IsReference s.properties

specs_good :
    (specs : List ReadAccessSpec)
    → All IsSpec specs
    → All (GoodObject references_fit) (to_all of_spec specs)
unfolding to_all of_spec
specs_good [] h = tt
specs_good (s ∷ ss) (g, gs) = (g, specs_good ss gs)

-- A ReadPropertyMultiple request reads back with all its objects and properties, where their
-- fields are in range.
pub decode_read_property_multiple_request-encode :
    (specs : List ReadAccessSpec)
    → All IsSpec specs
    → Fits (encode_read_property_multiple_request specs)
    → decode_read_property_multiple_request (encode_read_property_multiple_request specs) ≡ ok specs
unfolding decode_read_property_multiple_request encode_read_property_multiple_request
decode_read_property_multiple_request-encode specs h fits =
    let buf = encode_read_property_multiple_request specs in
    let back =
      objects_loop-encode_objects references_fit (suc (length buf)) (to_all of_spec specs)
        (specs_good specs h) (omega arith) fits in
    rw (back, to_all-of_spec specs)
