-- ===== src/Authz/Evaluate/Laws.antt =====
-- The evaluation of the rules, internal/authz/engine.go, and a description of it that has no loop
-- variable.
use bacnet_ip_rest_proxy.Prelude.{
  ◌≡◌, refl, ◌∙◌, inl, inr, Bool, true, false, ◌&&◌, List, [], ◌∷◌, ◌++◌, append_assoc, append-nil,
  map, Option, none, some, if◌then◌else◌, Bool-cases,
}
use bacnet_ip_rest_proxy.Authz.{External, Rule, Request, Result, is_now}
use bacnet_ip_rest_proxy.Authz.Evaluate.{
  RuleTrace, default_result, result_of, add_trace, traced, conditions_loop, evaluate_conditions,
  evaluate_loop, evaluate, explain,
}

abbrev pub or_else {ℓ} : {A : Type ℓ} → Option A → Option A → Option A
or_else (some a) o = some a
or_else none o = o

-- The first rule that applies and is decisive, and the last one that applies.
unfoldable pub first_now : (Rule → Bool) → List Rule → Option Rule
first_now applies [] = none
first_now applies (r ∷ rs) =
    let later = first_now applies rs in if applies r && is_now r.action then some r else later

unfoldable pub last_applying : (Rule → Bool) → List Rule → Option Rule
last_applying applies [] = none
last_applying applies (r ∷ rs) =
    or_else (last_applying applies rs) (if applies r then some r else none)

-- The README's description: a decisive rule that applies ends the evaluation, and otherwise the
-- last rule that applies wins.
unfoldable pub deciding_rule : (Rule → Bool) → List Rule → Option Rule
unfolding first_now last_applying
deciding_rule applies rules = or_else (first_now applies rules) (last_applying applies rules)

unfoldable pub decision : Option Rule → Result → Result
decision none result = result
decision (some r) result = result_of r

-- The rules that are looked at.
unfoldable pub looked_at : (Rule → Bool) → List Rule → List Rule
looked_at applies [] = []
looked_at applies (r ∷ rs) =
    let later = looked_at applies rs in if applies r && is_now r.action then r ∷ [] else r ∷ later

decision-nil :
    (applies : Rule → Bool) (result : Result) → result ≡ decision (deciding_rule applies []) result
unfolding decision deciding_rule
decision-nil applies result = refl

decision-or_else :
    (r : Rule) (result : Result) (a n : Bool) (first last : Option Rule)
    → let next = if a then result_of r else result in
      (if a && n then next else decision (or_else first last) next)
      ≡ decision
          (or_else (if a && n then some r else first) (or_else last (if a then some r else none)))
          result
unfolding decision
decision-or_else r result true true first last = refl
decision-or_else r result true false none none = refl
decision-or_else r result true false none (some q) = refl
decision-or_else r result true false (some q) last = refl
decision-or_else r result false n none none = refl
decision-or_else r result false n none (some q) = refl
decision-or_else r result false n (some q) last = refl

decision-cons :
    (applies : Rule → Bool) (r : Rule) (rs : List Rule) (result : Result)
    → let next = if applies r then result_of r else result in
      (if applies r && is_now r.action then next else decision (deciding_rule applies rs) next)
      ≡ decision (deciding_rule applies (r ∷ rs)) result
unfolding deciding_rule first_now last_applying
decision-cons applies r rs result =
    decision-or_else r result (applies r) (is_now r.action) (first_now applies rs)
      (last_applying applies rs)

module _ (x : External) (req : Request x) where
  unfoldable pub rule_applies : Rule → Bool
  rule_applies r = (evaluate_conditions x r req none).0

  -- What the trace says of one rule.
  unfoldable pub trace_of : Rule → RuleTrace
  unfolding rule_applies
  trace_of r = record {
    rule = r;
    conditions = (conditions_loop x r.conditions req).1;
    applies = rule_applies r;
  }

  evaluate_loop-cons :
      (r : Rule) (rs : List Rule) (result : Result) (trace : Option (List RuleTrace))
      → let next = if rule_applies r then result_of r else result in
        evaluate_loop x req (r ∷ rs) result trace ≡ (
          if rule_applies r && is_now r.action
          then (next, add_trace (trace_of r) trace)
          else evaluate_loop x req rs next (add_trace (trace_of r) trace))
  unfolding evaluate_loop rule_applies evaluate_conditions trace_of
  evaluate_loop-cons r rs result trace = refl

  evaluate_loop-decision :
      (rules : List Rule) (result : Result) (trace : Option (List RuleTrace))
      → (evaluate_loop x req rules result trace).0
        ≡ decision (deciding_rule rule_applies rules) result
  unfolding evaluate_loop
  evaluate_loop-decision [] result trace = decision-nil rule_applies result
  evaluate_loop-decision (r ∷ rs) result trace =
      let next = if rule_applies r then result_of r else result in
      let step = decision-cons rule_applies r rs result in
      let ih = evaluate_loop-decision rs next (add_trace (trace_of r) trace) in
      elim (Bool-cases (rule_applies r && is_now r.action)) [
        | inl e ↦ rw (evaluate_loop-cons r rs result trace, e) (rw e at step)
        | inr e ↦ rw (evaluate_loop-cons r rs result trace, e) (ih ∙ (rw e at step))
      ]

  -- The engine's loop decides as the description does: by the first rule that applies and is
  -- decisive if there is one, otherwise by the last rule that applies, otherwise by the default.
  pub evaluate-deciding_rule :
      (rules : List Rule)
      → evaluate x req rules ≡ decision (deciding_rule rule_applies rules) default_result
  unfolding evaluate
  evaluate-deciding_rule rules = evaluate_loop-decision rules default_result none

  evaluate_loop-trace :
      (rules : List Rule) (result : Result) (ts : List RuleTrace)
      → (evaluate_loop x req rules result (some ts)).1
        ≡ some (ts ++ map trace_of (looked_at rule_applies rules))
  unfolding evaluate_loop looked_at
  evaluate_loop-trace [] result ts = rw (append-nil ts)
  evaluate_loop-trace (r ∷ rs) result ts =
      let next = if rule_applies r then result_of r else result in
      let more = ts ++ (trace_of r ∷ []) in
      let ih = evaluate_loop-trace rs next more in
      let shape = append_assoc ts (trace_of r ∷ []) (map trace_of (looked_at rule_applies rs)) in
      elim (Bool-cases (rule_applies r && is_now r.action)) [
        | inl e ↦ rw (evaluate_loop-cons r rs result (some ts), e, add_trace)
        | inr e ↦ rw (evaluate_loop-cons r rs result (some ts), e, add_trace) (rw shape at ih)
      ]

  -- Explain gives the result that Evaluate gives, and its trace has one entry for each rule up to
  -- and including the first that applies and is decisive, in order, with what the engine found of
  -- its conditions and of the rule.
  pub explain-evaluate :
      (rules : List Rule)
      → explain x req rules ≡ (evaluate x req rules, map trace_of (looked_at rule_applies rules))
  unfolding explain traced
  explain-evaluate rules = rw (
    evaluate_loop-trace rules default_result [],
    evaluate_loop-decision rules default_result (some []),
    evaluate-deciding_rule rules,
  )
