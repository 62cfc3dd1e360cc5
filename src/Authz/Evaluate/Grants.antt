-- ===== src/Authz/Evaluate/Grants.antt =====
-- Which rule lets a request in: Evaluate, internal/authz/engine.go.
use bacnet_ip_rest_proxy.Prelude.{
  ◌≡◌, sym, ap, ◌∙◌, inl, inr, ◌⊎◌, Bool, true, false, ◌&&◌, List, [], ◌∷◌, ◌++◌, none, some,
  if◌then◌else◌, Bool-cases, Option-cases, &&-eq-true,
}
use bacnet_ip_rest_proxy.Authz.{External, Rule, Request, is_allow, is_now}
use bacnet_ip_rest_proxy.Authz.Evaluate.{default_result, result_of, evaluate}
use bacnet_ip_rest_proxy.Authz.Evaluate.Laws.{
  or_else, first_now, last_applying, deciding_rule, decision, rule_applies, evaluate-deciding_rule,
}

-- The rule stands in the list and applies.
abbrev pub AppliesIn : (Rule → Bool) → List Rule → Rule → Type 0
AppliesIn applies rules r =
    ((pre : List Rule) × (post : List Rule) × (rules ≡ pre ++ (r ∷ post))) × (applies r ≡ true)

AppliesIn-cons :
    (applies : Rule → Bool) (q r : Rule) (rules : List Rule)
    → AppliesIn applies rules r
    → AppliesIn applies (q ∷ rules) r
AppliesIn-cons applies q r rules ((pre, post, e), a) = ((q ∷ pre, post, ap (λ l. q ∷ l) e), a)

some_eq : {a b : Rule} → some a ≡ some b → a ≡ b
some_eq = cc

first_now-AppliesIn :
    (applies : Rule → Bool) (rules : List Rule) {r : Rule}
    → first_now applies rules ≡ some r
    → AppliesIn applies rules r
unfolding first_now
first_now-AppliesIn applies [] h = cc
first_now-AppliesIn applies (q ∷ rs) {r} h = elim (Bool-cases (applies q && is_now q.action)) [
  | inl e ↦
      let p : q ≡ r = some_eq (rw e at h) in
      (([], rs, ap (λ a. a ∷ rs) p), rw p at ((&&-eq-true (applies q) (is_now q.action) e).0))
  | inr e ↦ AppliesIn-cons applies q r rs (first_now-AppliesIn applies rs (rw e at h))
]

last_applying-AppliesIn :
    (applies : Rule → Bool) (rules : List Rule) {r : Rule}
    → last_applying applies rules ≡ some r
    → AppliesIn applies rules r
unfolding last_applying
last_applying-AppliesIn applies [] h = cc
last_applying-AppliesIn applies (q ∷ rs) {r} h = elim (Option-cases (last_applying applies rs)) [
  | inr (p, e) ↦
      let same : p ≡ r = some_eq (rw (e, or_else) at h) in
      AppliesIn-cons applies q r rs (last_applying-AppliesIn applies rs (e ∙ ap some same))
  | inl e ↦ here (Bool-cases (applies q)) (rw (e, or_else) at h)
]
  where
    here :
        (applies q ≡ true) ⊎ (applies q ≡ false)
        → (if applies q then some q else none) ≡ some r
        → AppliesIn applies (q ∷ rs) r
    here (inl a) k =
        let p : q ≡ r = some_eq (rw a at k) in (([], rs, ap (λ x. x ∷ rs) p), rw p at a)
    here (inr a) k = absurd (none_ne (rw a at k))
      where
        none_ne : none ≡ some r → ⊥
        none_ne = cc

deciding_rule-AppliesIn :
    (applies : Rule → Bool) (rules : List Rule) {r : Rule}
    → deciding_rule applies rules ≡ some r
    → AppliesIn applies rules r
unfolding deciding_rule
deciding_rule-AppliesIn applies rules {r} h = elim (Option-cases (first_now applies rules)) [
  | inr (p, e) ↦
      let same : p ≡ r = some_eq (rw (e, or_else) at h) in
      first_now-AppliesIn applies rules (e ∙ ap some same)
  | inl e ↦ last_applying-AppliesIn applies rules (rw (e, or_else) at h)
]

default_refused : default_result.allowed ≡ true → ⊥
unfolding default_result
default_refused = cc

result_allowed : (r : Rule) → (result_of r).allowed ≡ true → is_allow r.action ≡ true
unfolding result_of
result_allowed r h = h

some_ne : {r : Rule} → some r ≡ none → ⊥
some_ne = cc

first_now-append :
    (applies : Rule → Bool) (pre post : List Rule) (r : Rule)
    → first_now applies pre ≡ none
    → (applies r && is_now r.action) ≡ true
    → first_now applies (pre ++ (r ∷ post)) ≡ some r
unfolding first_now
first_now-append applies [] post r clear d = rw d
first_now-append applies (q ∷ qs) post r clear d =
    let ih = first_now-append applies qs post r in
    elim (Bool-cases (applies q && is_now q.action)) [
      | inl e ↦ absurd (some_ne (rw e at clear))
      | inr e ↦ rw e (ih (rw e at clear) d)
    ]

first_now-decisive :
    (applies : Rule → Bool) (pre post : List Rule) (r : Rule)
    → first_now applies pre ≡ none
    → applies r ≡ true
    → is_now r.action ≡ true
    → deciding_rule applies (pre ++ (r ∷ post)) ≡ some r
unfolding deciding_rule
first_now-decisive applies pre post r clear a n =
    let e = first_now-append applies pre post r clear (rw (a, n)) in rw (e, or_else)

module _ (x : External) (req : Request x) where
  -- A request that is allowed was allowed by a rule of the list that applies to it and whose action
  -- is `allow` or `allow-now`, and the permission and the name in the result are that rule's.
  pub evaluate-allowed :
      (rules : List Rule)
      → (evaluate x req rules).allowed ≡ true
      → (r : Rule) × AppliesIn (rule_applies x req) rules r
        × (is_allow r.action ≡ true)
        × (evaluate x req rules ≡ result_of r)
  unfolding decision
  evaluate-allowed rules h =
      let spec = evaluate-deciding_rule x req rules in
      elim (Option-cases (deciding_rule (rule_applies x req) rules)) [
        | inl e ↦
            let p : evaluate x req rules ≡ default_result = rw (e, decision) at spec in
            absurd (default_refused (ap (λ q. q.allowed) (sym p) ∙ h))
        | inr (r, e) ↦
            let p : evaluate x req rules ≡ result_of r = rw (e, decision) at spec in
            (
              r,
              deciding_rule-AppliesIn (rule_applies x req) rules e,
              result_allowed r (ap (λ q. q.allowed) (sym p) ∙ h),
              p,
            )
      ]

  -- Once a rule applies whose action is decisive, and none before it does, the rules behind it are
  -- without effect.
  pub evaluate-decisive :
      (pre post : List Rule) (r : Rule)
      → first_now (rule_applies x req) pre ≡ none
      → rule_applies x req r ≡ true
      → is_now r.action ≡ true
      → evaluate x req (pre ++ (r ∷ post)) ≡ result_of r
  unfolding decision
  evaluate-decisive pre post r clear a n = rw (
    evaluate-deciding_rule x req (pre ++ (r ∷ post)),
    first_now-decisive (rule_applies x req) pre post r clear a n,
  )
