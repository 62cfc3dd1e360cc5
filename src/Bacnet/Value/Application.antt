-- ===== src/Bacnet/Value/Application.antt =====
-- decodeApplicationValues on runs of primitives: internal/bacnet/value.go.
use bacnet_ip_rest_proxy.Prelude.{
  false, ℕ, zero, suc, ◌+◌, ◌<◌, ◌≡◌, refl, List, [], ◌∷◌, ◌++◌, ok, ◌>>=◌, if◌then◌else◌, arith,
  length, length-append, slice_from, slice_from-append, slice_from-Ensures, Ensures, returns,
  Ensures-if, Ensures-bind,
}
use bacnet_ip_rest_proxy.Bacnet.Tag.Safe.{decode_tag_header-Ensures}
use bacnet_ip_rest_proxy.Bacnet.Value.Safe.{decode_application_value-Ensures}
use bacnet_ip_rest_proxy.Bacnet.Tag.{IsU32, decode_tag_header}
use bacnet_ip_rest_proxy.Bacnet.Value.{
  Primitive, Values, primitive, context_primitive, constructed, nil, cons, application_tag_for,
  value_bytes, values_bytes, decode_application_value, application_values_loop,
  decode_application_values,
}
use bacnet_ip_rest_proxy.Bacnet.Value.RoundTrip.{
  IsPrimitive, decode_application_value-context_value, length-context_value_pos,
}
use bacnet_ip_rest_proxy.Bacnet.Value.Nested.{value_bytes-pos}
use bacnet_ip_rest_proxy.Bacnet.Value.Rounds.{application_header}

abbrev pub ArePrimitives : Values → Type 0
ArePrimitives nil = Unit {0}
ArePrimitives (cons (primitive p) vs) = IsPrimitive p × ArePrimitives vs
ArePrimitives (cons _ vs) = ⊥

application_values_loop-suc :
    (f : ℕ) (buf : List ℕ)
    → 0 < length buf
    → application_values_loop (suc f) buf ≡ (
        decode_tag_header buf >>= λ th.
        if th.context
        then ok (nil, 0)
        else (decode_application_value buf >>= λ (p, n). slice_from n buf >>= λ rest.
            application_values_loop f rest >>= λ (vs, m). ok (cons (primitive p) vs, n + m)))
unfolding application_values_loop
application_values_loop-suc f [] h = absurd (omega arith)
application_values_loop-suc f (b ∷ bs) h = refl

application_values_loop-primitive :
    (f : ℕ) (p : Primitive) (rest : List ℕ)
    → IsPrimitive p
    → IsU32 (length (value_bytes (primitive p) ++ rest))
    → application_values_loop (suc f) (value_bytes (primitive p) ++ rest) ≡ (
        application_values_loop f rest >>= λ (vs, m).
        ok (cons (primitive p) vs, length (value_bytes (primitive p)) + m))
unfolding value_bytes
application_values_loop-primitive f p rest v fits =
    let bytes = value_bytes (primitive p) in
    let e = decode_application_value-context_value p rest v fits in
    let (th, d, c) = application_header (bytes ++ rest) e in
    let pos = length-context_value_pos false (application_tag_for p) p in
    rw (
      application_values_loop-suc f (bytes ++ rest) (omega (arith, length-append bytes rest)),
      d,
      c,
      e,
      slice_from-append bytes rest,
    )

application_values_loop-values_bytes :
    (f : ℕ) (vs : Values)
    → ArePrimitives vs
    → IsU32 (length (values_bytes vs))
    → length (values_bytes vs) < f
    → application_values_loop f (values_bytes vs) ≡ ok (vs, length (values_bytes vs))
unfolding values_bytes application_values_loop
application_values_loop-values_bytes zero vs h fits enough = absurd (omega arith)
application_values_loop-values_bytes (suc f) nil h fits enough = refl
application_values_loop-values_bytes (suc f) (cons (context_primitive t o) vs) h fits enough =
    absurd h
application_values_loop-values_bytes (suc f) (cons (constructed t items) vs) h fits enough =
    absurd h
application_values_loop-values_bytes (suc f) (cons (primitive p) vs) (v, vh) fits enough =
    let bytes = value_bytes (primitive p) in
    let size = length-append bytes (values_bytes vs) in
    let pos = value_bytes-pos (primitive p) in
    let ih = application_values_loop-values_bytes f vs vh (omega arith) (omega arith) in
    rw (application_values_loop-primitive f p (values_bytes vs) v fits, ih, size)

-- A run of application-tagged primitives is read back.
pub decode_application_values-values_bytes :
    (vs : Values)
    → ArePrimitives vs
    → IsU32 (length (values_bytes vs))
    → decode_application_values (values_bytes vs) ≡ ok (vs, length (values_bytes vs))
unfolding decode_application_values
decode_application_values-values_bytes vs h fits =
    application_values_loop-values_bytes (suc (length (values_bytes vs))) vs h fits (omega arith)

abbrev pub Anything : {A : Type 0} → A → Type 0
Anything a = Unit {0}

application_values_loop-Ensures :
    (fuel : ℕ) (buf : List ℕ)
    → length buf < fuel
    → Ensures Anything (application_values_loop fuel buf)
unfolding application_values_loop
application_values_loop-Ensures zero buf h = absurd (omega arith)
application_values_loop-Ensures (suc fuel) [] h = returns tt
application_values_loop-Ensures (suc fuel) (b ∷ bs) h =
    Ensures-bind (decode_tag_header-Ensures (b ∷ bs)) λ th _.
      Ensures-if th.context (λ _. returns tt)
        λ _. Ensures-bind (decode_application_value-Ensures (b ∷ bs)) λ (p, n) k.
          Ensures-bind (slice_from-Ensures n (b ∷ bs) k.1) λ rest e.
            Ensures-bind (application_values_loop-Ensures fuel rest (omega arith))
              λ (vs, m) _. returns tt

-- Decoding a run of application values ends, without a slice out of bounds, on any octets.
pub decode_application_values-Ensures :
    (buf : List ℕ) → Ensures Anything (decode_application_values buf)
unfolding decode_application_values
decode_application_values-Ensures buf =
    application_values_loop-Ensures (suc (length buf)) buf (omega arith)
