-- ===== src/Authz/Match.antt =====
-- One condition against a request: `matchCondition`, `matchClaimValue`, `matchWildcard` and
-- `modeApplies` of internal/authz/engine.go.
use bacnet_ip_rest_proxy.Prelude.{
  ℕ, Bool, true, false, ◌||◌, List, [], ◌∷◌, Option, none, some, ltb, ◌==◌, if◌then◌else◌,
}
use bacnet_ip_rest_proxy.Prelude.Texts.{String, is_text, has_slash}
use bacnet_ip_rest_proxy.Authz.{
  External, Claim, Claims, text, items, scalar, no_claims, more_claims, Condition, ConditionType,
  device_type, ip_type, jwt_type, operation_type, token_type, variable_type, other_type, Request,
  operation_name, MatchMode, match_none, match_not_all, match_any, match_all, other_mode,
}

unfoldable pub mode_applies : MatchMode → ℕ → ℕ → Bool
mode_applies match_all matched total = matched == total
mode_applies match_any matched total = ltb 0 matched
mode_applies match_none matched total = matched == 0
mode_applies match_not_all matched total = ltb matched total
mode_applies (other_mode s) matched total = false

module _ {ℓ} {V : Type ℓ} where
  unfoldable pub lookup : String → List (String × V) → Option V
  lookup k [] = none
  lookup k ((j, v) ∷ m) = if is_text j k then some v else lookup k m

module _ (x : External) where
  -- `ok, err := path.Match(...)` and `err == nil && ok`
  unfoldable pub match_wildcard : String → String → Bool
  match_wildcard pattern value =
      let matches : Bool = elim (x.path_match pattern value) [ none ↦ false | some b ↦ b ] in
      if is_text pattern "*" then true else matches

  -- The loop over an array, in which only strings can match.
  unfoldable pub match_items : Claims x.Scalar → String → Bool
  unfolding match_wildcard
  match_items no_claims pattern = false
  match_items (more_claims (text s) cs) pattern = match_wildcard pattern s || match_items cs pattern
  match_items (more_claims _ cs) pattern = match_items cs pattern

  unfoldable pub match_claim_value : Claim x.Scalar → String → Bool
  unfolding match_wildcard match_items
  match_claim_value (text s) pattern = match_wildcard pattern s
  match_claim_value (items cs) pattern = match_items cs pattern
  match_claim_value (scalar v) pattern = match_wildcard pattern (x.print_scalar v)

  -- The cases `ConditionIP` and `ConditionJWT`.
  unfoldable pub match_ip : String → Option x.Ip → Bool
  unfolding match_wildcard
  match_ip pattern none = false
  match_ip pattern (some ip) =
      let in_net : Bool = elim (x.parse_cidr pattern) [
        | none ↦ false
        | some n ↦ x.net_contains n ip
      ] in
      if has_slash pattern then in_net else match_wildcard pattern (x.ip_string ip)

  unfoldable pub match_jwt : String → String → Option (List (String × Claim x.Scalar)) → Bool
  unfolding match_claim_value lookup
  match_jwt field pattern none = false
  match_jwt field pattern (some claims) = elim (lookup field claims) [
    | none ↦ false
    | some claim ↦ match_claim_value claim pattern
  ]

  -- A text that the request may lack, where `""` stands for none.
  unfoldable pub match_present : String → String → Bool
  unfolding match_wildcard
  match_present pattern value = if is_text value "" then false else match_wildcard pattern value

  unfoldable pub match_type : ConditionType → String → String → Request x → Bool
  unfolding match_wildcard match_ip match_jwt match_present
  match_type device_type field value req = match_wildcard value req.device
  match_type ip_type field value req = match_ip value req.client_ip
  match_type jwt_type field value req = match_jwt field value req.jwt_claims
  match_type operation_type field value req = match_wildcard value (operation_name req.operation)
  match_type token_type field value req = match_present value req.token_name
  match_type variable_type field value req = match_present value req.object_name
  match_type (other_type s) field value req = false

  unfoldable pub match_condition : Condition → Request x → Bool
  unfolding match_type
  match_condition c req = match_type c.condition_type c.field c.value req

  -- `actualValue`, which only the trace shows.
  unfoldable pub or_text : String → String → String
  or_text missing s = if is_text s "" then missing else s

  unfoldable pub claim_text : String → Option (List (String × Claim x.Scalar)) → String
  unfolding lookup
  claim_text field none = "<no verified JWT>"
  claim_text field (some claims) = elim (lookup field claims) [
    | none ↦ x.print_absent field
    | some claim ↦ x.print_claim claim
  ]

  unfoldable pub ip_text : Option x.Ip → String
  ip_text none = "<unknown>"
  ip_text (some ip) = x.ip_string ip

  unfoldable pub actual_of : ConditionType → String → Request x → String
  unfolding or_text claim_text ip_text
  actual_of device_type field req = or_text "<no device>" req.device
  actual_of ip_type field req = ip_text req.client_ip
  actual_of jwt_type field req = claim_text field req.jwt_claims
  actual_of operation_type field req = operation_name req.operation
  actual_of token_type field req = or_text "<no configured token>" req.token_name
  actual_of variable_type field req = or_text "<not about a single variable>" req.object_name
  actual_of (other_type s) field req = "<unknown condition type>"

  unfoldable pub actual_value : Condition → Request x → String
  unfolding actual_of
  actual_value c req = actual_of c.condition_type c.field req
