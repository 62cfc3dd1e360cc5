-- ===== src/Authz/Evaluate/Unused.antt =====
-- Request data that no condition looks at: internal/authz/types.go lets callers skip gathering it.
use bacnet_ip_rest_proxy.Prelude.{◌≡◌, refl, Bool, false, ◌||◌, List, [], ◌∷◌, arith}
use bacnet_ip_rest_proxy.Prelude.Texts.{String}
use bacnet_ip_rest_proxy.Authz.{
  External, Condition, Rule, Request, ConditionType, device_type, ip_type, jwt_type, operation_type,
  token_type, variable_type, other_type, is_condition_type, conditions_use, uses_condition,
}
use bacnet_ip_rest_proxy.Authz.Match.{match_type, match_condition}
use bacnet_ip_rest_proxy.Authz.Evaluate.{conditions_loop, evaluate_conditions, evaluate}
use bacnet_ip_rest_proxy.Authz.Evaluate.Laws.{
  rule_applies, first_now, last_applying, deciding_rule, evaluate-deciding_rule,
}

neither : (a b : Bool) → a || b ≡ false → (a ≡ false) × (b ≡ false)
neither a b h = ground arith

module _ (x : External) (req : Request x) (name : String) where
  -- The request, about the variable `name`.
  abbrev pub about : Request x
  about = record req { object_name = name }

  match_type-about :
      (t : ConditionType) (field value : String)
      → is_condition_type t variable_type ≡ false
      → match_type x t field value about ≡ match_type x t field value req
  unfolding match_type is_condition_type
  match_type-about device_type field value h = refl
  match_type-about ip_type field value h = refl
  match_type-about jwt_type field value h = refl
  match_type-about operation_type field value h = refl
  match_type-about token_type field value h = refl
  match_type-about variable_type field value h = cc
  match_type-about (other_type s) field value h = refl

  conditions_loop-about :
      (cs : List Condition)
      → conditions_use cs variable_type ≡ false
      → (conditions_loop x cs about).0 ≡ (conditions_loop x cs req).0
  unfolding conditions_loop conditions_use match_condition
  conditions_loop-about [] h = refl
  conditions_loop-about (c ∷ cs) h =
      let (a, b) =
        neither (is_condition_type c.condition_type variable_type) (conditions_use cs variable_type)
          h in
      rw (match_type-about c.condition_type c.field c.value a, conditions_loop-about cs b)

  rule_applies-about :
      (r : Rule)
      → conditions_use r.conditions variable_type ≡ false
      → rule_applies x about r ≡ rule_applies x req r
  unfolding rule_applies evaluate_conditions
  rule_applies-about r h = rw (conditions_loop-about r.conditions h)

  first_now-about :
      (rules : List Rule)
      → uses_condition rules variable_type ≡ false
      → first_now (rule_applies x about) rules ≡ first_now (rule_applies x req) rules
  unfolding first_now uses_condition
  first_now-about [] h = refl
  first_now-about (r ∷ rs) h =
      let (a, b) =
        neither (conditions_use r.conditions variable_type) (uses_condition rs variable_type) h in
      rw (rule_applies-about r a, first_now-about rs b)

  last_applying-about :
      (rules : List Rule)
      → uses_condition rules variable_type ≡ false
      → last_applying (rule_applies x about) rules ≡ last_applying (rule_applies x req) rules
  unfolding last_applying uses_condition
  last_applying-about [] h = refl
  last_applying-about (r ∷ rs) h =
      let (a, b) =
        neither (conditions_use r.conditions variable_type) (uses_condition rs variable_type) h in
      rw (rule_applies-about r a, last_applying-about rs b)

  -- Where no rule has a condition on variables, the variable's name does not matter: the request
  -- about any name gets the same result.
  pub evaluate-about :
      (rules : List Rule)
      → uses_condition rules variable_type ≡ false
      → evaluate x about rules ≡ evaluate x req rules
  unfolding deciding_rule
  evaluate-about rules h = rw (
    evaluate-deciding_rule x about rules,
    evaluate-deciding_rule x req rules,
    first_now-about rules h,
    last_applying-about rules h,
  )
