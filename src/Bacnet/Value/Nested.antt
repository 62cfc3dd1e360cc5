-- ===== src/Bacnet/Value/Nested.antt =====
-- decodeValues on runs of values, constructed ones among them: internal/bacnet/value.go.
use bacnet_ip_rest_proxy.Prelude.{
  ==_self, ℕ, zero, suc, ◌+◌, ◌≤◌, ◌<◌, ◌≡◌, refl, sym, ap, inl, inr, true, false, List, ◌++◌,
  append_assoc, ok, arith, length, length-append,
}
use bacnet_ip_rest_proxy.Bacnet.Tag.{IsU32, opening_tag, closing_tag}
use bacnet_ip_rest_proxy.Bacnet.Tag.RoundTrip.{
  decode_tag_header-opening_tag, decode_tag_header-closing_tag, length-opening_tag_pos,
  length-closing_tag_pos,
}
use bacnet_ip_rest_proxy.Bacnet.Value.{
  expect_opening, Value, Values, primitive, context_primitive, constructed, nil, cons,
  application_tag_for, value_bytes, values_bytes, then_more, nested_round, decode_nested_values,
  decode_values, max_nesting,
}
use bacnet_ip_rest_proxy.Bacnet.Value.Rounds.{
  IsValue, IsValues, nesting, nestings, Stops, then_more-append, decode_nested_values-suc,
  round-primitive, round-context_primitive, round-constructed,
}
use bacnet_ip_rest_proxy.Bacnet.Value.RoundTrip.{length-tagged_pos, length-context_value_pos}

pub value_bytes-pos : (v : Value) → 0 < length (value_bytes v)
unfolding value_bytes
value_bytes-pos (primitive p) = length-context_value_pos false (application_tag_for p) p
value_bytes-pos (context_primitive t octets) = length-tagged_pos t true octets
value_bytes-pos (constructed t items) = omega (
  arith,
  length-append (opening_tag t) (values_bytes items ++ closing_tag t),
  length-opening_tag_pos t,
)

constructed_sizes :
    (t : ℕ) (items : Values) (rest : List ℕ)
    → (2 + length (values_bytes items) ≤ length (value_bytes (constructed t items)))
      × (length (values_bytes items ++ (closing_tag t ++ rest))
          ≤ length (value_bytes (constructed t items) ++ rest))
unfolding value_bytes
constructed_sizes t items rest =
    let octets = values_bytes items in
    omega (
      arith,
      length-append (opening_tag t ++ (octets ++ closing_tag t)) rest,
      length-append (opening_tag t) (octets ++ closing_tag t),
      length-append octets (closing_tag t),
      length-append octets (closing_tag t ++ rest),
      length-append (closing_tag t) rest,
      length-opening_tag_pos t,
      length-closing_tag_pos t,
    )

abbrev ReadsValue : Value → Type 0
ReadsValue v =
    (f depth : ℕ) (rest : List ℕ)
    → IsValue v
    → nesting v + depth ≤ 16
    → length (value_bytes v) ≤ f
    → IsU32 (length (value_bytes v ++ rest))
    → nested_round (decode_nested_values f) depth (value_bytes v ++ rest)
      ≡ then_more (decode_nested_values f depth) (value_bytes v ++ rest) v (length (value_bytes v))

abbrev ReadsValues : Values → Type 0
ReadsValues vs =
    (f depth : ℕ) (rest : List ℕ)
    → IsValues vs
    → nestings vs + depth ≤ 16
    → length (values_bytes vs) < f
    → IsU32 (length (values_bytes vs ++ rest))
    → Stops rest
    → decode_nested_values f depth (values_bytes vs ++ rest) ≡ ok (vs, length (values_bytes vs))

stop_reads :
    (f depth : ℕ) (rest : List ℕ)
    → Stops rest
    → decode_nested_values (suc f) depth rest ≡ ok (nil, 0)
stop_reads f depth rest (inl e) = rw e (unfold decode_nested_values in refl)
stop_reads f depth rest (inr (t, tail, e)) =
    let pos : 0 < length (closing_tag t ++ tail) =
      omega (arith, length-append (closing_tag t) tail, length-closing_tag_pos t) in
    rw (e, decode_nested_values-suc f depth (closing_tag t ++ tail) pos)
      (unfold nested_round in rw (decode_tag_header-closing_tag t tail))

mutual
  unfolding value_bytes

  value_reads : (v : Value) → ReadsValue v
  value_reads (primitive p) f depth rest v d h fits =
      round-primitive (decode_nested_values f) depth p rest v fits
  value_reads (context_primitive t octets) f depth rest v d h fits =
      round-context_primitive (decode_nested_values f) depth t octets rest v fits
  value_reads (constructed t items) f depth rest v d h fits =
      round-constructed (decode_nested_values f) depth t items rest (omega arith) (
        values_read items f (depth + 1) (closing_tag t ++ rest) v (omega arith)
          (omega (arith, constructed_sizes t items rest))
          (omega (arith, constructed_sizes t items rest)) (inr (t, rest, refl)))

  values_read : (vs : Values) → ReadsValues vs
  values_read nil zero depth rest v d h fits stop = absurd (omega arith)
  values_read nil (suc f) depth rest v d h fits stop = stop_reads f depth rest stop
  values_read (cons v vs) zero depth rest w d h fits stop = absurd (omega arith)
  values_read (cons v vs) (suc f) depth rest w d h fits stop =
      let a = value_bytes v in
      let b = values_bytes vs in
      let size = length-append a b in
      let all = length-append (a ++ b) rest in
      let tail = length-append b rest in
      let whole = length-append a (b ++ rest) in
      rw
        (
          append_assoc a b rest,
          decode_nested_values-suc f depth (a ++ (b ++ rest)) (omega (arith, value_bytes-pos v)),
          value_reads v f depth (b ++ rest) w.0 (omega arith) (omega arith) (omega arith),
          then_more-append (decode_nested_values f depth) a (b ++ rest) v,
          values_read vs f depth rest w.1 (omega arith) (omega (arith, value_bytes-pos v))
              (omega arith) stop,
        )
        (ap (λ n. ok (cons v vs, n)) (sym size))

-- Every list of values whose primitive data is in range (numbers, dates, times and object
-- identifiers that their octets can hold, texts in valid UTF-8), in which no context-tagged
-- primitive has six or seven octets and constructed values nest at most sixteen deep, is read back
-- whole from its encoding, whether the octets end there or a closing tag of an enclosing value
-- follows, where there are fewer than 2 ^ 32 octets in all.
pub decode_values-values_bytes :
    (vs : Values) (rest : List ℕ)
    → IsValues vs
    → nestings vs ≤ max_nesting
    → IsU32 (length (values_bytes vs ++ rest))
    → Stops rest
    → decode_values (values_bytes vs ++ rest) ≡ ok (vs, length (values_bytes vs))
unfolding decode_values
decode_values-values_bytes vs rest v d fits stop =
    values_read vs (suc (length (values_bytes vs ++ rest))) 0 rest v (omega arith)
      (omega (arith, length-append (values_bytes vs) rest)) fits stop

pub expect_opening-opening_tag :
    (t : ℕ) (rest : List ℕ) → expect_opening t (opening_tag t ++ rest) ≡ ok (length (opening_tag t))
unfolding expect_opening
expect_opening-opening_tag t rest = rw (decode_tag_header-opening_tag t rest, ==_self t)
