-- ===== src/Bacnet/Value/Markers.antt =====
-- A context-tagged primitive of six or seven octets carries its length in an extra octet, and the
-- decoded header stores that length where it stores the markers of opening and closing tags.
use bacnet_ip_rest_proxy.Prelude.{
  ℕ, ◌^◌, ◌<◌, ◌≡◌, ◌≢◌, sym, ◌∙◌, ◌⊎◌, inl, inr, true, List, [], append-nil, Outcome, ok,
  >>=-eq-ok, arith, length, slice_from,
}
use bacnet_ip_rest_proxy.Bacnet.Tag.{
  TagInfo, tag_header, decode_tag_header, opening_lvt, closing_lvt,
}
use bacnet_ip_rest_proxy.Bacnet.Tag.RoundTrip.{tag_info}
use bacnet_ip_rest_proxy.Bacnet.Value.{
  Value, Values, context_primitive, constructed, nil, cons, tagged, value_bytes, expect_closing,
  then_more, nested_value, nested_round, decode_nested_values, decode_values,
}
use bacnet_ip_rest_proxy.Bacnet.Value.RoundTrip.{decode_tag_header-tagged, length-tagged_pos}
use bacnet_ip_rest_proxy.Bacnet.Value.Rounds.{decode_nested_values-suc}

-- Reading an opening tag yields a constructed value, if anything.
nested_value-constructed :
    (items_at : List ℕ → Outcome (Values × ℕ)) (buf : List ℕ) (th : TagInfo) (v : Value) (n : ℕ)
    → nested_value items_at buf th ≡ ok (v, n)
    → (items : Values) × (v ≡ constructed th.number items)
unfolding nested_value
nested_value-constructed items_at buf th v n e =
    let (inner, _, e1) = >>=-eq-ok (slice_from th.header buf) _ e in
    let ((items, m), _, e2) = >>=-eq-ok (items_at inner) _ e1 in
    let (after, _, e3) = >>=-eq-ok (slice_from m inner) _ e2 in
    let (c, _, e4) = >>=-eq-ok (expect_closing th.number after) _ e3 in (items, cc)

then_more-head :
    (loop : List ℕ → Outcome (Values × ℕ)) (buf : List ℕ) (v w : Value) (n m : ℕ) (ws : Values)
    → then_more loop buf v n ≡ ok (cons w ws, m)
    → v ≡ w
unfolding then_more
then_more-head loop buf v w n m ws e =
    let (rest, _, e1) = >>=-eq-ok (slice_from n buf) _ e in
    let ((vs, k), _, e2) = >>=-eq-ok (loop rest) _ e1 in cc

opened :
    (recur : ℕ → List ℕ → Outcome (Values × ℕ)) (t h : ℕ) (buf : List ℕ) (v : Value) (vs : Values)
    (n : ℕ)
    → decode_tag_header buf ≡ ok (tag_info t true opening_lvt h)
    → nested_round recur 0 buf ≡ ok (cons v vs, n)
    → (items : Values) × (v ≡ constructed t items)
unfolding nested_round
opened recur t h buf v vs n d e =
    let e' = rw (d, nested_round) at e in
    let ((w, k), f, g) =
      >>=-eq-ok (nested_value (recur 1) buf (tag_info t true opening_lvt h)) _ e' in
    let (items, p) = nested_value-constructed (recur 1) buf (tag_info t true opening_lvt h) w k f in
    (items, sym (then_more-head (recur 0) buf w v k n vs g) ∙ p)

closed :
    (recur : ℕ → List ℕ → Outcome (Values × ℕ)) (t h : ℕ) (buf : List ℕ)
    → decode_tag_header buf ≡ ok (tag_info t true closing_lvt h)
    → nested_round recur 0 buf ≡ ok (nil, 0)
unfolding nested_round
closed recur t h buf d = rw d

-- The octets alone, as one round sees them.
whole :
    (t : ℕ) (octets : List ℕ) (l : ℕ)
    → length octets ≡ l
    → l < 2 ^ 32
    → (h : ℕ) × (decode_tag_header (tagged t true octets) ≡ ok (tag_info t true l h))
whole t octets l e h =
    let read = decode_tag_header-tagged t true octets [] (rw e h) in
    (length (tag_header t true l), rw (append-nil (tagged t true octets), e) at read)

-- A context-tagged primitive of six or seven octets is not read back from its own encoding,
-- whatever its tag.
pub decode_values-context_primitive_ne :
    (t : ℕ) (octets : List ℕ) (n : ℕ)
    → (length octets ≡ opening_lvt) ⊎ (length octets ≡ closing_lvt)
    → decode_values (value_bytes (context_primitive t octets))
      ≢ ok (cons (context_primitive t octets) nil, n)
unfolding decode_values value_bytes
decode_values-context_primitive_ne t octets n marker e =
    let buf = tagged t true octets in
    let recur = decode_nested_values (length buf) in
    let e' =
      sym (decode_nested_values-suc (length buf) 0 buf (length-tagged_pos t true octets)) ∙ e in
    lost recur e' marker
  where
    lost :
        (recur : ℕ → List ℕ → Outcome (Values × ℕ))
        → nested_round recur 0 (tagged t true octets)
          ≡ ok (cons (context_primitive t octets) nil, n)
        → (length octets ≡ opening_lvt) ⊎ (length octets ≡ closing_lvt)
        → ⊥
    lost recur e' (inl six) =
        let (h, d) = whole t octets 6 six (omega arith) in
        let (items, p) =
          opened recur t h (tagged t true octets) (context_primitive t octets) nil n d e' in
        cc
    lost recur e' (inr seven) =
        let (h, d) = whole t octets 7 seven (omega arith) in
        let f = closed recur t h (tagged t true octets) d in cc
