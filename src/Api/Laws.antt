-- ===== src/Api/Laws.antt =====
-- The access checks of internal/api/middleware.go and handlers.go.
use bacnet_ip_rest_proxy.Prelude.{
  ◌≡◌, ◌≢◌, ◌↔◌, refl, sym, ◌∙◌, inl, inr, Bool, true, false, ◌&&◌, List, if◌then◌else◌, Bool-cases,
  &&-eq-true,
}
use bacnet_ip_rest_proxy.Prelude.Texts.{String, is_text}
use bacnet_ip_rest_proxy.Authz.{
  External, Permission, readonly, readwrite, other_permission, Operation, read_property,
  write_property, Request, Rule, required_permission, is_allow, variable_type, uses_condition,
}
use bacnet_ip_rest_proxy.Authz.Evaluate.{evaluate, result_of}
use bacnet_ip_rest_proxy.Authz.Evaluate.Laws.{rule_applies}
use bacnet_ip_rest_proxy.Authz.Evaluate.Grants.{AppliesIn, evaluate-allowed}
use bacnet_ip_rest_proxy.Authz.Evaluate.Unused.{evaluate-about}
use bacnet_ip_rest_proxy.Api.{
  readwrite_required, authentication_required, access_denied, granted, variable, is_readwrite,
  denied, permits, asking, allowed, variable_access, check, authorize_variable, visible_loop,
  visible_variables,
}

is_readwrite-eq : (p : Permission) → is_readwrite p ≡ true → p ≡ readwrite
unfolding is_readwrite
is_readwrite-eq readonly h = cc
is_readwrite-eq readwrite h = refl
is_readwrite-eq (other_permission s) h = cc

refused :
    (b c : Bool)
    → (if b then readwrite_required else if c then authentication_required else access_denied)
      ≢ granted
refused true c = cc
refused false true = cc
refused false false = cc

no_bool : false ≢ true
no_bool = cc

module _ (x : External) (rules : List Rule) where
  -- A write that is allowed was allowed by a rule of the list that applies to the request, whose
  -- action is `allow` or `allow-now` and whose permission is `readwrite`.
  pub allowed-write_property :
      (req : Request x) (name : String)
      → allowed x rules req name write_property ≡ true
      → (r : Rule) × AppliesIn (rule_applies x (asking x rules req name write_property)) rules r
        × (is_allow r.action ≡ true)
        × (r.permission ≡ readwrite)
  unfolding allowed permits required_permission is_readwrite result_of
  allowed-write_property req name h =
      let asked = asking x rules req name write_property in
      let (a, w) = &&-eq-true (evaluate x asked rules).allowed _ h in
      let (r, here, allow, e) = evaluate-allowed x asked rules a in
      (r, here, allow, is_readwrite-eq r.permission (rw e at w))

  -- Where no rule has a condition on variables, a caller's rights are the same on every variable.
  pub allowed-any_name :
      (req : Request x) (name other : String) (op : Operation)
      → uses_condition rules variable_type ≡ false
      → allowed x rules req name op ≡ allowed x rules req other op
  unfolding allowed
  allowed-any_name req name other op h =
      rw (evaluate-about x (asking x rules req other op) name rules h)

  check-any_name :
      (bearer : String) (req : Request x) (name other : String) (op : Operation)
      → uses_condition rules variable_type ≡ false
      → check x rules bearer req name op ≡ check x rules bearer req other op
  unfolding check
  check-any_name bearer req name other op h =
      rw (allowed-any_name req name other op h, allowed-any_name req name other read_property h)

  -- The check is passed exactly where the operation is allowed.
  pub check-granted :
      (bearer : String) (req : Request x) (name : String) (op : Operation)
      → (check x rules bearer req name op ≡ granted) ↔ (allowed x rules req name op ≡ true)
  unfolding check denied
  check-granted bearer req name op = elim (Bool-cases (allowed x rules req name op)) [
    | inl e ↦ ((λ h. e), (λ h. rw e))
    | inr e ↦ (
      (λ h. absurd (
          refused (is_readwrite (required_permission op) && allowed x rules req name read_property)
            (is_text bearer "") (rw e at h))),
      (λ h. absurd (no_bool (sym e ∙ h))),
    )
  ]

  -- The shortcut past the variable cache does not change the verdict: for a variable in the cache
  -- the request is checked as one about that variable's name.
  pub authorize_variable-check :
      (bearer : String) (req : Request x) (op : Operation) (name : String)
      → authorize_variable x rules bearer req op (variable name) ≡ check x rules bearer req name op
  unfolding authorize_variable
  authorize_variable-check bearer req op name =
      elim (Bool-cases (uses_condition rules variable_type)) [
        | inl e ↦ rw e
        | inr e ↦ rw e (check-any_name bearer req "" name op e)
      ]

  variable_access-any_name :
      (req : Request x) (name other : String)
      → uses_condition rules variable_type ≡ false
      → variable_access x rules req name ≡ variable_access x rules req other
  unfolding variable_access
  variable_access-any_name req name other h = rw (
    allowed-any_name req name other read_property h,
    allowed-any_name req name other write_property h,
  )

  -- Nor does evaluating the rules once for all variables change which are visible: each variable
  -- is listed with the access that its own name gives, and those without access are left out.
  pub visible_variables-each :
      {V : Type 0} (name_of : V → String) (req : Request x) (vs : List V)
      → visible_variables x rules name_of req vs
        ≡ visible_loop x rules name_of (λ v. variable_access x rules req (name_of v)) vs
  unfolding visible_variables
  visible_variables-each name_of req vs = λ i. visible_loop x rules name_of (λ v. each v i) vs
    where
      each :
          (v : _)
          → (if uses_condition rules variable_type
              then variable_access x rules req (name_of v)
              else variable_access x rules req "")
            ≡ variable_access x rules req (name_of v)
      each v = elim (Bool-cases (uses_condition rules variable_type)) [
        | inl e ↦ rw e
        | inr e ↦ rw e (variable_access-any_name req "" (name_of v) e)
      ]
