-- ===== src/Examples/Access.antt =====
-- The theorems about rules and access at a concrete rule set.
use bacnet_ip_rest_proxy.Prelude.{◌≡◌, refl, true, false, [], ◌∷◌, map, none, some}
use bacnet_ip_rest_proxy.Prelude.Texts.{String, is_text}
use bacnet_ip_rest_proxy.Authz.{
  External, Rule, Condition, Request, readonly, readwrite, match_all, allow, deny_now, device_type,
  operation_type, variable_type, read_property, write_property, is_allow, uses_condition, is_now,
  is_condition_type,
}
use bacnet_ip_rest_proxy.Authz.Match.{match_condition, mode_applies}
use bacnet_ip_rest_proxy.Authz.Evaluate.{
  default_result, result_of, evaluate_conditions, evaluate, explain,
}
use bacnet_ip_rest_proxy.Authz.Evaluate.Conditions.{
  mode_meaning, outcomes, evaluate_conditions-mode_meaning,
}
use bacnet_ip_rest_proxy.Authz.Evaluate.Laws.{
  deciding_rule, decision, looked_at, rule_applies, trace_of, evaluate-deciding_rule,
  explain-evaluate,
}
use bacnet_ip_rest_proxy.Authz.Evaluate.Grants.{AppliesIn, evaluate-allowed}
use bacnet_ip_rest_proxy.Authz.Evaluate.Unused.{about, evaluate-about}
use bacnet_ip_rest_proxy.Api.{
  variable, asking, allowed, variable_access, check, authorize_variable, visible_loop,
  visible_variables,
}
use bacnet_ip_rest_proxy.Api.Laws.{
  allowed-write_property, authorize_variable-check, visible_variables-each,
}

-- Patterns that match only themselves, addresses that are texts.
abbrev pub plain : External
plain = record {
  Ip = String;
  Net = String;
  Scalar = String;
  path_match = λ pattern value. some (is_text pattern value);
  ip_string = λ ip. ip;
  parse_cidr = λ pattern. none;
  net_contains = λ net ip. is_text net ip;
  print_scalar = λ v. v;
  print_claim = λ c. "claim";
  print_absent = λ field. field;
}

abbrev on_device : Condition
on_device = record { condition_type = device_type; field = ""; value = "ahu1" }

abbrev on_write : Condition
on_write = record { condition_type = operation_type; field = ""; value = "write-property" }

abbrev writers : Rule
writers = record {
  name = "writers";
  conditions = on_device ∷ [];
  mode = match_all;
  permission = readwrite;
  action = allow;
}

abbrev no_writes : Rule
no_writes = record {
  name = "no-writes";
  conditions = on_write ∷ [];
  mode = match_all;
  permission = readonly;
  action = deny_now;
}

abbrev pub request : Request plain
request = record {
  device = "ahu1";
  client_ip = none;
  operation = write_property;
  token_name = "";
  jwt_claims = none;
  object_name = "temperature";
}

evaluate-deciding_rule_example :
    evaluate plain request (writers ∷ no_writes ∷ [])
    ≡ decision
        (deciding_rule (rule_applies plain request) (writers ∷ no_writes ∷ []))
        default_result
evaluate-deciding_rule_example = evaluate-deciding_rule plain request (writers ∷ no_writes ∷ [])

explain-evaluate_example : explain plain request (writers ∷ no_writes ∷ writers ∷ []) ≡ (
  evaluate plain request (writers ∷ no_writes ∷ writers ∷ []),
  map
      (trace_of plain request)
      (looked_at (rule_applies plain request) (writers ∷ no_writes ∷ writers ∷ [])),
)
explain-evaluate_example = explain-evaluate plain request (writers ∷ no_writes ∷ writers ∷ [])

evaluate_conditions-mode_meaning_example :
    (evaluate_conditions plain writers request none).0
    ≡ mode_meaning match_all (outcomes plain request (on_device ∷ []))
evaluate_conditions-mode_meaning_example = evaluate_conditions-mode_meaning plain request writers

writers_allow : (evaluate plain request (writers ∷ [])).allowed ≡ true
unfolding evaluate mode_applies match_condition is_now result_of is_allow
writers_allow = refl

evaluate-allowed_example :
    (r : Rule) × AppliesIn (rule_applies plain request) (writers ∷ []) r
    × (is_allow r.action ≡ true)
    × (evaluate plain request (writers ∷ []) ≡ result_of r)
evaluate-allowed_example = evaluate-allowed plain request (writers ∷ []) writers_allow

no_variable_rules : uses_condition (writers ∷ []) variable_type ≡ false
unfolding uses_condition is_condition_type
no_variable_rules = refl

evaluate-about_example :
    evaluate plain (about plain request "setpoint") (writers ∷ [])
    ≡ evaluate plain request (writers ∷ [])
evaluate-about_example = evaluate-about plain request "setpoint" (writers ∷ []) no_variable_rules

writers_may_write : allowed plain (writers ∷ []) request "temperature" write_property ≡ true
unfolding allowed evaluate mode_applies match_condition is_now result_of is_allow
writers_may_write = refl

allowed-write_property_example :
    (r : Rule) × AppliesIn
      (rule_applies plain (asking plain (writers ∷ []) request "temperature" write_property))
      (writers ∷ [])
      r
    × (is_allow r.action ≡ true)
    × (r.permission ≡ readwrite)
allowed-write_property_example =
    allowed-write_property plain (writers ∷ []) request "temperature" writers_may_write

authorize_variable-check_example :
    authorize_variable plain (writers ∷ []) "secret" request read_property (variable "temperature")
    ≡ check plain (writers ∷ []) "secret" request "temperature" read_property
authorize_variable-check_example =
    authorize_variable-check plain (writers ∷ []) "secret" request read_property "temperature"

visible_variables-each_example :
    visible_variables plain (writers ∷ []) (λ v. v) request ("temperature" ∷ "setpoint" ∷ [])
    ≡ visible_loop plain
        (writers ∷ [])
        (λ v. v)
        (λ v. variable_access plain (writers ∷ []) request v)
        ("temperature" ∷ "setpoint" ∷ [])
visible_variables-each_example =
    visible_variables-each plain (writers ∷ []) (λ v. v) request ("temperature" ∷ "setpoint" ∷ [])
