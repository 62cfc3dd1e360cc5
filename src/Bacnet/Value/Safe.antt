-- ===== src/Bacnet/Value/Safe.antt =====
-- The decoding of values on any octets: internal/bacnet/value.go.
use bacnet_ip_rest_proxy.Prelude.{
  ℕ, zero, suc, ◌+◌, ◌%◌, ◌^◌, ◌≤◌, ◌<◌, ◌≡◌, true, not, List, [], ◌∷◌, ltb, leb, ◌==◌, Outcome,
  arith, length, slice_from-Ensures, slice_to-Ensures, Ensures, returns, fails, Ensures-if,
  Ensures-guard, Ensures-bind, Ensures-weaken,
}
use bacnet_ip_rest_proxy.Bacnet.Tag.{TagInfo, is_opening, is_closing, tag_boolean}
use bacnet_ip_rest_proxy.Bacnet.Tag.Safe.{HeaderIn, decode_tag_header-Ensures}
use bacnet_ip_rest_proxy.Bacnet.Primitive.{
  decode_date_data, decode_time_data, decode_object_id_data,
}
use bacnet_ip_rest_proxy.Bacnet.Primitive.Text.{decode_character_string-Ensures}
use bacnet_ip_rest_proxy.Bacnet.Primitive.BitString.RoundTrip.{decode_bit_string_data-Ensures}
use bacnet_ip_rest_proxy.Bacnet.Value.{
  Value, Values, primitive, context_primitive, constructed, nil, cons, tag_data, real_data,
  double_data, text_data, application_data, decode_application_value, expect_opening,
  expect_closing, application_values_loop, decode_application_values, max_nesting, then_more,
  nested_value, nested_round, decode_nested_values, decode_values,
}

-- Some octets were read, and none past the end.
abbrev pub ReadIn : List ℕ → ℕ → Type 0
ReadIn buf n = (1 ≤ n) × (n ≤ length buf)

fits_in : (a b : ℕ) → not (ltb (a % 2 ^ 32) b) ≡ true → b ≤ a
fits_in a b h = ground arith

pub tag_data-Ensures :
    (buf : List ℕ) (th : TagInfo)
    → HeaderIn buf th
    → Ensures (λ d. ReadIn buf (th.header + th.lvt) × (length d ≡ th.lvt)) (tag_data buf th)
unfolding tag_data
tag_data-Ensures buf th h = Ensures-bind (slice_from-Ensures th.header buf h.1) λ rest e.
    Ensures-guard (not (ltb (length rest % 2 ^ 32) th.lvt)) _ λ fits.
      let k = fits_in (length rest) th.lvt fits in
      Ensures-weaken (slice_to-Ensures th.lvt rest k) (λ d m. (omega arith, m))

abbrev Anything {ℓ} : {A : Type ℓ} → A → Type 0
Anything a = Unit {0}

real_data-Ensures : (octets : List ℕ) → Ensures Anything (real_data octets)
unfolding real_data
real_data-Ensures (a ∷ b ∷ c ∷ d ∷ []) = returns tt
real_data-Ensures _ = fails

double_data-Ensures : (octets : List ℕ) → Ensures Anything (double_data octets)
unfolding double_data
double_data-Ensures (a ∷ b ∷ c ∷ d ∷ e ∷ f ∷ g ∷ h ∷ []) = returns tt
double_data-Ensures _ = fails

text_data-Ensures : (octets : List ℕ) → Ensures Anything (text_data octets)
unfolding text_data
text_data-Ensures [] = fails
text_data-Ensures (charset ∷ rest) =
    Ensures-bind (decode_character_string-Ensures charset rest) λ s _. returns tt

date_data-Ensures : (octets : List ℕ) → Ensures Anything (decode_date_data octets)
unfolding decode_date_data
date_data-Ensures (a ∷ b ∷ c ∷ d ∷ []) = returns tt
date_data-Ensures _ = fails

time_data-Ensures : (octets : List ℕ) → Ensures Anything (decode_time_data octets)
unfolding decode_time_data
time_data-Ensures (a ∷ b ∷ c ∷ d ∷ []) = returns tt
time_data-Ensures _ = fails

pub object_id_data-Ensures : (octets : List ℕ) → Ensures Anything (decode_object_id_data octets)
unfolding decode_object_id_data
object_id_data-Ensures (a ∷ b ∷ c ∷ d ∷ []) = returns tt
object_id_data-Ensures _ = fails

application_data-Ensures :
    (number : ℕ) (octets : List ℕ) → Ensures Anything (application_data number octets)
unfolding application_data
application_data-Ensures number octets =
    Ensures-if (number == 0) (λ _. returns tt)
      λ _.
        Ensures-if (number == 2) (λ _. returns tt)
          λ _.
            Ensures-if (number == 3) (λ _. returns tt)
              λ _.
                Ensures-if (number == 4) (λ _. real_data-Ensures octets)
                  λ _.
                    Ensures-if (number == 5) (λ _. double_data-Ensures octets)
                      λ _.
                        Ensures-if (number == 6) (λ _. returns tt)
                          λ _.
                            Ensures-if (number == 7) (λ _. text_data-Ensures octets)
                              λ _.
                                Ensures-if (number == 8)
                                  (λ _.
                                    Ensures-bind (decode_bit_string_data-Ensures octets)
                                      (λ b _. returns tt))
                                  λ _.
                                    Ensures-if (number == 9) (λ _. returns tt)
                                      λ _.
                                        Ensures-if (number == 10)
                                          (λ _.
                                            Ensures-bind (date_data-Ensures octets)
                                              (λ d _. returns tt))
                                          λ _.
                                            Ensures-if (number == 11)
                                              (λ _.
                                                Ensures-bind (time_data-Ensures octets)
                                                  (λ d _. returns tt))
                                              λ _.
                                                Ensures-if (number == 12)
                                                  (λ _.
                                                    Ensures-bind (object_id_data-Ensures octets)
                                                      (λ d _. returns tt))
                                                  (λ _. fails)

pub decode_application_value-Ensures :
    (buf : List ℕ) → Ensures (λ r. ReadIn buf r.1) (decode_application_value buf)
unfolding decode_application_value
decode_application_value-Ensures buf = Ensures-bind (decode_tag_header-Ensures buf) λ th h.
    Ensures-guard (not th.context) _ λ _.
      Ensures-if (th.number == tag_boolean) (λ _. returns h)
        λ _.
          Ensures-bind (tag_data-Ensures buf th h)
            λ octets k. Ensures-bind (application_data-Ensures th.number octets) λ p _. returns k.0

pub expect_closing-Ensures :
    (want : ℕ) (buf : List ℕ) → Ensures (ReadIn buf) (expect_closing want buf)
unfolding expect_closing
expect_closing-Ensures want buf = Ensures-bind (decode_tag_header-Ensures buf) λ th h.
    Ensures-if (is_closing th) (λ _. Ensures-if (th.number == want) (λ _. returns h) (λ _. fails))
      (λ _. fails)

pub expect_opening-Ensures :
    (want : ℕ) (buf : List ℕ) → Ensures (ReadIn buf) (expect_opening want buf)
unfolding expect_opening
expect_opening-Ensures want buf = Ensures-bind (decode_tag_header-Ensures buf) λ th h.
    Ensures-if (is_opening th) (λ _. Ensures-if (th.number == want) (λ _. returns h) (λ _. fails))
      (λ _. fails)

-- A loop that reads runs of values off buffers shorter than `bound`.
abbrev Loops : ℕ → (List ℕ → Outcome (Values × ℕ)) → Type 0
Loops bound loop = (buf : List ℕ) → length buf < bound → Ensures (λ r. r.1 ≤ length buf) (loop buf)

then_more-Ensures :
    (loop : List ℕ → Outcome (Values × ℕ)) (buf : List ℕ) (v : Value) (n : ℕ)
    → Loops (length buf) loop
    → ReadIn buf n
    → Ensures (λ r. r.1 ≤ length buf) (then_more loop buf v n)
unfolding then_more
then_more-Ensures loop buf v n ih h = Ensures-bind (slice_from-Ensures n buf h.1) λ rest e.
    Ensures-bind (ih rest (omega arith)) λ (vs, m) k. returns {a = (cons v vs, n + m)} (omega arith)

nested_value-Ensures :
    (items_at : List ℕ → Outcome (Values × ℕ)) (buf : List ℕ) (th : TagInfo)
    → Loops (length buf) items_at
    → HeaderIn buf th
    → Ensures (λ r. ReadIn buf r.1) (nested_value items_at buf th)
unfolding nested_value
nested_value-Ensures items_at buf th ih h =
    Ensures-bind (slice_from-Ensures th.header buf h.1) λ inner e.
      Ensures-bind (ih inner (omega arith)) λ (items, n) k.
        Ensures-bind (slice_from-Ensures n inner k) λ after m.
          Ensures-bind (expect_closing-Ensures th.number after)
            λ c j. returns {a = (constructed th.number items, th.header + n + c)} (omega arith)

nested_round-Ensures :
    (recur : ℕ → List ℕ → Outcome (Values × ℕ)) (depth : ℕ) (buf : List ℕ)
    → ((d : ℕ) → Loops (length buf) (recur d))
    → Ensures (λ r. r.1 ≤ length buf) (nested_round recur depth buf)
unfolding nested_round
nested_round-Ensures recur depth buf ih = Ensures-bind (decode_tag_header-Ensures buf) λ th h.
    Ensures-if (not th.context)
      (λ _.
        Ensures-bind (decode_application_value-Ensures buf)
          λ (p, n) k. then_more-Ensures (recur depth) buf (primitive p) n (ih depth) k)
      λ _.
        Ensures-if (is_closing th) (λ _. returns {a = (nil, 0)} (omega arith))
          λ _.
            Ensures-if (is_opening th)
              (λ _.
                Ensures-if (leb max_nesting depth) (λ _. fails)
                  λ _.
                    Ensures-bind
                      (nested_value-Ensures (recur (depth + 1)) buf th (ih (depth + 1)) h)
                      λ (v, n) k. then_more-Ensures (recur depth) buf v n (ih depth) k)
              λ _. Ensures-bind (tag_data-Ensures buf th h) λ octets k.
                then_more-Ensures (recur depth) buf (context_primitive th.number octets)
                  (th.header + th.lvt) (ih depth) k.0

decode_nested_values-Ensures : (fuel depth : ℕ) → Loops fuel (decode_nested_values fuel depth)
unfolding decode_nested_values
decode_nested_values-Ensures zero depth buf h = absurd (omega arith)
decode_nested_values-Ensures (suc fuel) depth [] h = returns {a = (nil, 0)} (omega arith)
decode_nested_values-Ensures (suc fuel) depth (b ∷ bs) h =
    nested_round-Ensures (decode_nested_values fuel) depth (b ∷ bs)
      (λ d buf k. decode_nested_values-Ensures fuel d buf (omega arith))

-- On any octets `decodeValues` fails or returns values read from inside the buffer: it does not
-- panic, and its recursion ends.
pub decode_values-Ensures : (buf : List ℕ) → Ensures (λ r. r.1 ≤ length buf) (decode_values buf)
unfolding decode_values
decode_values-Ensures buf = decode_nested_values-Ensures (suc (length buf)) 0 buf (omega arith)

application_values_loop-Ensures : (fuel : ℕ) → Loops fuel (application_values_loop fuel)
unfolding application_values_loop
application_values_loop-Ensures zero buf h = absurd (omega arith)
application_values_loop-Ensures (suc fuel) [] h = returns {a = (nil, 0)} (omega arith)
application_values_loop-Ensures (suc fuel) (b ∷ bs) h =
    Ensures-bind (decode_tag_header-Ensures (b ∷ bs)) λ th _.
      Ensures-if th.context (λ _. returns {a = (nil, 0)} (omega arith))
        λ _. Ensures-bind (decode_application_value-Ensures (b ∷ bs)) λ (p, n) k.
          Ensures-bind (slice_from-Ensures n (b ∷ bs) k.1) λ rest e.
            Ensures-bind (application_values_loop-Ensures fuel rest (omega arith))
              λ (vs, m) j. returns {a = (cons (primitive p) vs, n + m)} (omega arith)

pub decode_application_values-Ensures :
    (buf : List ℕ) → Ensures (λ r. r.1 ≤ length buf) (decode_application_values buf)
unfolding decode_application_values
decode_application_values-Ensures buf =
    application_values_loop-Ensures (suc (length buf)) buf (omega arith)
