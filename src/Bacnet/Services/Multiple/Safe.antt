-- ===== src/Bacnet/Services/Multiple/Safe.antt =====
-- The ReadPropertyMultiple decoders on any octets: internal/bacnet/services.go.
use mathlib.Core.Path.{subst}
use bacnet_ip_rest_proxy.Prelude.{
  Bool, true, false, refl, ◌≢◌, if◌then◌else◌, Option-cases, inl, inr, ℕ, zero, suc, ◌+◌, ◌≤◌, ◌<◌,
  ◌≡◌, List, [], ◌∷◌, none, some, ◌==◌, Outcome, arith, length, slice_from-Ensures, Ensures,
  returns, fails, Ensures-if, Ensures-bind, Ensures-weaken,
}
use bacnet_ip_rest_proxy.Bacnet.Tag.{TagInfo, is_opening, decode_tag_header}
use bacnet_ip_rest_proxy.Bacnet.Tag.Safe.{HeaderIn, decode_tag_header-Ensures}
use bacnet_ip_rest_proxy.Bacnet.Value.Safe.{
  decode_values-Ensures, expect_opening-Ensures, expect_closing-Ensures,
}
use bacnet_ip_rest_proxy.Bacnet.Errors.Laws.{decode_error_sequence-Ensures}
use bacnet_ip_rest_proxy.Bacnet.Services.Context.{peek_context_tag}
use bacnet_ip_rest_proxy.Bacnet.Services.Context.Safe.{
  Leaves, decode_context_object_id-Ensures, decode_context_enumerated-Ensures,
  optional_plain_unsigned-Ensures,
}
use bacnet_ip_rest_proxy.Bacnet.Services.Multiple.{
  read_values, read_error, at_list_end, decode_reference, list_loop, objects_loop,
  decode_read_property_multiple_request, decode_read_property_multiple_ack, decode_read_values,
  decode_read_error, decode_outcome_at, decode_outcome, decode_result,
}

-- Something is read, and the rest is what is left.
abbrev Shortens {ℓ} : {A : Type ℓ} → List ℕ → A × List ℕ → Type 0
Shortens buf r = 1 + length r.1 ≤ length buf

decode_reference-Ensures :
    (p i : ℕ) (buf : List ℕ) → Ensures (Shortens buf) (decode_reference p i buf)
unfolding decode_reference
decode_reference-Ensures p i buf =
    Ensures-bind (decode_context_enumerated-Ensures p buf) λ (prop, n) h.
      Ensures-bind (slice_from-Ensures n buf h.1) λ rest e.
        Ensures-bind (optional_plain_unsigned-Ensures 32 i rest) λ (idx, rest') k.
          returns {a = (record { property = prop; array_index = idx }, rest')} (omega arith)

module _ {ℓ} {A : Type ℓ} (element : List ℕ → Outcome (A × List ℕ))
    (safe : (buf : List ℕ) → Ensures (Shortens buf) (element buf)) where
  list_loop-Ensures :
      (fuel : ℕ) (buf : List ℕ)
      → length buf < fuel
      → Ensures (Leaves buf) (list_loop element fuel buf)
  unfolding list_loop
  list_loop-Ensures zero buf h = absurd (omega arith)
  list_loop-Ensures (suc fuel) buf h =
      Ensures-if (at_list_end buf) (λ _. returns {a = ([], buf)} (omega arith))
        (λ _. Ensures-bind (safe buf) λ (x, rest) k.
          Ensures-bind (list_loop-Ensures fuel rest (omega arith))
            λ (xs, end) j. returns {a = (x ∷ xs, end)} (omega arith))

  objects_loop-Ensures :
      (fuel : ℕ) (buf : List ℕ)
      → length buf < fuel
      → Ensures (λ r. Unit {0}) (objects_loop element fuel buf)
  unfolding objects_loop
  objects_loop-Ensures zero buf h = absurd (omega arith)
  objects_loop-Ensures (suc fuel) [] h = returns tt
  objects_loop-Ensures (suc fuel) (b ∷ bs) h =
      Ensures-bind (decode_context_object_id-Ensures 0 (b ∷ bs)) λ (oid, n) k.
        Ensures-bind (slice_from-Ensures n (b ∷ bs) k.1) λ rest e.
          Ensures-bind (expect_opening-Ensures 1 rest) λ m j.
            Ensures-bind (slice_from-Ensures m rest j.1) λ inner e1.
              Ensures-bind (list_loop-Ensures (suc (length inner)) inner (omega arith))
                λ (xs, end) l. Ensures-bind (expect_closing-Ensures 1 end) λ c i.
                  Ensures-bind (slice_from-Ensures c end i.1) λ tail e2.
                    Ensures-bind (objects_loop-Ensures fuel tail (omega arith))
                      λ others u. returns tt

-- Decoding a ReadPropertyMultiple request ends, without a slice out of bounds, on any octets.
pub decode_read_property_multiple_request-Ensures :
    (buf : List ℕ) → Ensures (λ r. Unit {0}) (decode_read_property_multiple_request buf)
unfolding decode_read_property_multiple_request
decode_read_property_multiple_request-Ensures buf =
    Ensures-bind
      (objects_loop-Ensures (decode_reference 0 1) (decode_reference-Ensures 0 1) (suc (length buf))
        buf (omega arith))
      λ specs u. returns tt

decode_read_values-Ensures : (buf : List ℕ) → Ensures (Leaves buf) (decode_read_values buf)
unfolding decode_read_values
decode_read_values-Ensures buf = Ensures-bind (decode_values-Ensures buf) λ (vs, n) h.
    Ensures-bind (slice_from-Ensures n buf h) λ after e.
      Ensures-bind (expect_closing-Ensures 4 after) λ c k.
        Ensures-bind (slice_from-Ensures 1 after (omega arith))
          λ tail e'. returns {a = (read_values vs, tail)} (omega arith)

decode_read_error-Ensures : (buf : List ℕ) → Ensures (Leaves buf) (decode_read_error buf)
unfolding decode_read_error
decode_read_error-Ensures buf = Ensures-bind (decode_error_sequence-Ensures buf) λ (x, n) h.
    Ensures-bind (slice_from-Ensures n buf h) λ after e.
      Ensures-bind (expect_closing-Ensures 5 after) λ c k.
        Ensures-bind (slice_from-Ensures 1 after (omega arith))
          λ tail e'. returns {a = (read_error x, tail)} (omega arith)

context_only-HeaderIn :
    (buf : List ℕ) (a : TagInfo) (b : Bool) {th : TagInfo}
    → HeaderIn buf a
    → (if b then some a else none) ≡ some th
    → HeaderIn buf th
context_only-HeaderIn buf a true {th} h e = let p : a ≡ th = cc in subst (HeaderIn buf) p h
context_only-HeaderIn buf a false h e = cc

header-HeaderIn :
    (buf : List ℕ) (r : Outcome TagInfo) {th : TagInfo}
    → Ensures (HeaderIn buf) r
    → decode_tag_header buf ≡ r
    → peek_context_tag buf ≡ some th
    → HeaderIn buf th
unfolding peek_context_tag
header-HeaderIn buf _ (returns {a} h) d e =
    context_only-HeaderIn buf a a.context h (rw (d, peek_context_tag) at e)
header-HeaderIn buf _ {th} (fails {e = x}) d e =
    let no : none ≡ some th = rw (d, peek_context_tag) at e in absurd (ne no)
  where
    ne : {a : TagInfo} → none ≢ some a
    ne = cc

peek_context_tag-HeaderIn :
    (buf : List ℕ) {th : TagInfo} → peek_context_tag buf ≡ some th → HeaderIn buf th
peek_context_tag-HeaderIn buf e =
    header-HeaderIn buf (decode_tag_header buf) (decode_tag_header-Ensures buf) refl e

decode_outcome_at-Ensures :
    (th : TagInfo) (buf : List ℕ)
    → HeaderIn buf th
    → Ensures (Leaves buf) (decode_outcome_at th buf)
unfolding decode_outcome_at
decode_outcome_at-Ensures th buf h =
    Ensures-if (is_opening th)
      (λ _.
        Ensures-if (th.number == 4)
          (λ _.
            Ensures-bind (slice_from-Ensures th.header buf h.1)
              λ inner e. Ensures-weaken (decode_read_values-Ensures inner) λ r k. omega arith)
          (λ _.
            Ensures-if (th.number == 5)
              (λ _.
                Ensures-bind (slice_from-Ensures th.header buf h.1)
                  λ inner e. Ensures-weaken (decode_read_error-Ensures inner) λ r k. omega arith)
              (λ _. fails)))
      (λ _. fails)

decode_outcome-Ensures : (buf : List ℕ) → Ensures (Leaves buf) (decode_outcome buf)
unfolding decode_outcome
decode_outcome-Ensures buf = elim (Option-cases (peek_context_tag buf)) [
  | inl e ↦ rw (e, decode_outcome) fails
  | inr (th, e) ↦
      rw (e, decode_outcome) (decode_outcome_at-Ensures th buf (peek_context_tag-HeaderIn buf e))
]

decode_result-Ensures : (buf : List ℕ) → Ensures (Shortens buf) (decode_result buf)
unfolding decode_result
decode_result-Ensures buf = Ensures-bind (decode_reference-Ensures 2 3 buf) λ (ref, rest) h.
    Ensures-bind (decode_outcome-Ensures rest)
      λ (o, rest') k. returns {a = (record { reference = ref; outcome = o }, rest')} (omega arith)

-- Decoding a ReadPropertyMultiple acknowledgement ends, without a slice out of bounds, on any
-- octets.
pub decode_read_property_multiple_ack-Ensures :
    (buf : List ℕ) → Ensures (λ r. Unit {0}) (decode_read_property_multiple_ack buf)
unfolding decode_read_property_multiple_ack
decode_read_property_multiple_ack-Ensures buf =
    Ensures-bind
      (objects_loop-Ensures decode_result decode_result-Ensures (suc (length buf)) buf
        (omega arith))
      λ results u. returns tt
