-- ===== src/Authz/Evaluate.antt =====
-- Rules against a request: `evaluateConditions`, `evaluate`, `Evaluate` and `Explain` of
-- internal/authz/engine.go. The trace is the pointer's target, passed through: `none` is nil.
pub mod Conditions
pub mod Laws
pub mod Grants
pub mod Unused
use bacnet_ip_rest_proxy.Prelude.{
  ℕ, suc, Bool, ◌&&◌, true, false, List, [], ◌∷◌, ◌++◌, Option, none, some, if◌then◌else◌, length,
}
use bacnet_ip_rest_proxy.Prelude.Texts.{String}
use bacnet_ip_rest_proxy.Authz.{
  External, Permission, other_permission, Condition, Rule, Request, Result, is_allow, is_now,
}
use bacnet_ip_rest_proxy.Authz.Match.{match_condition, actual_value, mode_applies}

pub record ConditionTrace : Type 0 where
  pub condition : Condition
  pub matched : Bool
  pub actual : String

pub record RuleTrace : Type 0 where
  pub rule : Rule
  pub conditions : List ConditionTrace
  pub applies : Bool

unfoldable pub default_result : Result
default_result = record {
  allowed = false;
  permission = other_permission "";
  rule_name = "<implicit-default>";
}

unfoldable pub result_of : Rule → Result
result_of r = record { allowed = is_allow r.action; permission = r.permission; rule_name = r.name }

-- Where a trace is wanted, one more entry is appended.
unfoldable pub add_trace : RuleTrace → Option (List RuleTrace) → Option (List RuleTrace)
add_trace entry none = none
add_trace entry (some ts) = some (ts ++ (entry ∷ []))

unfoldable pub traced : Option (List RuleTrace) → List RuleTrace
traced none = []
traced (some ts) = ts

module _ (x : External) where
  -- The loop over the conditions: how many matched, and a trace of each.
  unfoldable pub conditions_loop : List Condition → Request x → ℕ × List ConditionTrace
  conditions_loop [] req = (0, [])
  conditions_loop (c ∷ cs) req =
      let (matched, traces) = conditions_loop cs req in
      let m = match_condition x c req in
      let t : ConditionTrace = record {
        condition = c;
        matched = m;
        actual = actual_value x c req;
      } in
      (if m then suc matched else matched, t ∷ traces)

  unfoldable pub evaluate_conditions :
      Rule → Request x → Option (List RuleTrace) → Bool × Option (List RuleTrace)
  unfolding conditions_loop add_trace
  evaluate_conditions r req trace =
      let (matched, traces) = conditions_loop r.conditions req in
      let applies = mode_applies r.mode matched (length r.conditions) in
      let entry : RuleTrace = record { rule = r; conditions = traces; applies = applies } in
      (applies, add_trace entry trace)

  -- The loop of `evaluate` with its variable `result`.
  unfoldable pub evaluate_loop :
      Request x → List Rule → Result → Option (List RuleTrace) → Result × Option (List RuleTrace)
  unfolding evaluate_conditions
  evaluate_loop req [] result trace = (result, trace)
  evaluate_loop req (r ∷ rs) result trace =
      let (applies, trace') = evaluate_conditions r req trace in
      let next = if applies then result_of r else result in
      let rest = evaluate_loop req rs next trace' in
      if applies && is_now r.action then (next, trace') else rest

  unfoldable pub evaluate : Request x → List Rule → Result
  unfolding evaluate_loop
  evaluate req rules = (evaluate_loop req rules default_result none).0

  unfoldable pub explain : Request x → List Rule → Result × List RuleTrace
  unfolding evaluate_loop traced
  explain req rules =
      let (result, trace) = evaluate_loop req rules default_result (some []) in
      (result, traced trace)
