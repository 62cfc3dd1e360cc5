-- ===== src/Bacnet/Value/Rounds.antt =====
-- One round of the loop of decodeNestedValues: internal/bacnet/value.go.
use bacnet_ip_rest_proxy.Prelude.{
  ℕ, suc, ◌+◌, ◌<◌, max, ◌≡◌, ◌≢◌, refl, ◌⊎◌, Bool, true, false, not, List, [], ◌∷◌, ◌++◌,
  append_assoc, ==_self, ne→==_false, Outcome, ok, ◌>>=◌, arith, length, length-append,
  slice_from-append, >>=-eq-ok, guard-eq-ok, lt→leb_false,
}
use bacnet_ip_rest_proxy.Bacnet.Tag.{
  IsU32, TagInfo, opening_tag, closing_tag, decode_tag_header, opening_lvt, closing_lvt,
}
use bacnet_ip_rest_proxy.Bacnet.Tag.RoundTrip.{
  decode_tag_header-opening_tag, decode_tag_header-closing_tag,
}
use bacnet_ip_rest_proxy.Bacnet.Value.{
  Primitive, Value, Values, primitive, context_primitive, constructed, nil, cons, tagged,
  value_bytes, values_bytes, decode_application_value, expect_closing, then_more, nested_value,
  nested_round, decode_nested_values,
}
use bacnet_ip_rest_proxy.Bacnet.Value.RoundTrip.{
  IsPrimitive, decode_tag_header-tagged, tag_data-tagged, length-tagged, length-le-tagged,
  decode_application_value-context_value,
}

-- A context-tagged primitive of six or seven octets is left out: its length is taken for a marker.
abbrev pub IsPlainLength : ℕ → Type 0
IsPlainLength n = (n ≢ opening_lvt) × (n ≢ closing_lvt)

abbrev mutual
  pub IsValue : Value → Type 0
  IsValue (primitive p) = IsPrimitive p
  IsValue (context_primitive t octets) = IsPlainLength (length octets)
  IsValue (constructed t items) = IsValues items

  pub IsValues : Values → Type 0
  IsValues nil = Unit {0}
  IsValues (cons v vs) = IsValue v × IsValues vs

-- How deep constructed values nest.
abbrev mutual
  pub nesting : Value → ℕ
  nesting (primitive p) = 0
  nesting (context_primitive t octets) = 0
  nesting (constructed t items) = suc (nestings items)

  pub nestings : Values → ℕ
  nestings nil = 0
  nestings (cons v vs) = max (nesting v) (nestings vs)

-- Where a run of values ends: at the end, or at a closing tag.
abbrev pub Stops : List ℕ → Type 0
Stops rest = (rest ≡ []) ⊎ ((t : ℕ) × (tail : List ℕ) × (rest ≡ closing_tag t ++ tail))

pub application_header :
    (buf : List ℕ) {p : Primitive} {n : ℕ}
    → decode_application_value buf ≡ ok (p, n)
    → (th : TagInfo) × (decode_tag_header buf ≡ ok th) × (th.context ≡ false)
unfolding decode_application_value
application_header buf e =
    let (th, d, k) = >>=-eq-ok (decode_tag_header buf) _ e in
    (th, d, not_true th.context (guard-eq-ok _ _ k).0)
  where
    not_true : (b : Bool) → not b ≡ true → b ≡ false
    not_true b h = ground arith

pub then_more-append :
    (loop : List ℕ → Outcome (Values × ℕ)) (bytes rest : List ℕ) (v : Value)
    → then_more loop (bytes ++ rest) v (length bytes)
      ≡ (loop rest >>= λ (vs, m). ok (cons v vs, length bytes + m))
unfolding then_more
then_more-append loop bytes rest v = rw (slice_from-append bytes rest)

pub decode_nested_values-suc :
    (f depth : ℕ) (buf : List ℕ)
    → 0 < length buf
    → decode_nested_values (suc f) depth buf ≡ nested_round (decode_nested_values f) depth buf
unfolding decode_nested_values
decode_nested_values-suc f depth [] h = absurd (omega arith)
decode_nested_values-suc f depth (b ∷ bs) h = refl

pub expect_closing-closing_tag :
    (t : ℕ) (rest : List ℕ) → expect_closing t (closing_tag t ++ rest) ≡ ok (length (closing_tag t))
unfolding expect_closing
expect_closing-closing_tag t rest = rw (decode_tag_header-closing_tag t rest, ==_self t)

module _ (recur : ℕ → List ℕ → Outcome (Values × ℕ)) (depth : ℕ) where
  pub round-primitive :
      (p : Primitive) (rest : List ℕ)
      → IsPrimitive p
      → IsU32 (length (value_bytes (primitive p) ++ rest))
      → nested_round recur depth (value_bytes (primitive p) ++ rest)
        ≡ then_more
            (recur depth)
            (value_bytes (primitive p) ++ rest)
            (primitive p)
            (length (value_bytes (primitive p)))
  unfolding nested_round value_bytes
  round-primitive p rest v h =
      let e = decode_application_value-context_value p rest v h in
      let (th, d, c) = application_header _ e in rw (d, c, e)

  pub round-context_primitive :
      (t : ℕ) (octets rest : List ℕ)
      → IsPlainLength (length octets)
      → IsU32 (length (value_bytes (context_primitive t octets) ++ rest))
      → nested_round recur depth (value_bytes (context_primitive t octets) ++ rest)
        ≡ then_more
            (recur depth)
            (value_bytes (context_primitive t octets) ++ rest)
            (context_primitive t octets)
            (length (value_bytes (context_primitive t octets)))
  unfolding nested_round value_bytes
  round-context_primitive t octets rest (no_open, no_close) h =
      let fits : IsU32 (length octets + length rest) =
        omega (arith, length-append (tagged t true octets) rest, length-le-tagged t true octets) in
      rw (
        decode_tag_header-tagged t true octets rest (omega arith),
        ne→==_false (length octets) 7 no_close,
        ne→==_false (length octets) 6 no_open,
        tag_data-tagged t true octets rest fits,
        length-tagged t true octets (omega arith),
      )

  pub round-constructed :
      (t : ℕ) (items : Values) (rest : List ℕ)
      → depth < 16
      → recur (depth + 1) (values_bytes items ++ (closing_tag t ++ rest))
        ≡ ok (items, length (values_bytes items))
      → nested_round recur depth (value_bytes (constructed t items) ++ rest)
        ≡ then_more
            (recur depth)
            (value_bytes (constructed t items) ++ rest)
            (constructed t items)
            (length (value_bytes (constructed t items)))
  unfolding nested_round value_bytes nested_value
  round-constructed t items rest h ih =
      let octets = values_bytes items in
      let inner = octets ++ (closing_tag t ++ rest) in
      let shape : (opening_tag t ++ (octets ++ closing_tag t)) ++ rest ≡ opening_tag t ++ inner =
        simp append_assoc in
      let size : length (opening_tag t ++ (octets ++ closing_tag t))
          ≡ length (opening_tag t) + length octets + length (closing_tag t) =
        omega (
          arith,
          length-append (opening_tag t) (octets ++ closing_tag t),
          length-append octets (closing_tag t),
        ) in
      rw (
        shape,
        size,
        decode_tag_header-opening_tag t inner,
        lt→leb_false 16 depth h,
        slice_from-append (opening_tag t) inner,
        ih,
        slice_from-append octets (closing_tag t ++ rest),
        expect_closing-closing_tag t rest,
      )
