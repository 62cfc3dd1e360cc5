-- ===== src/Config/Validate.antt =====
-- The checks of the configuration, Validate and validate of internal/config/config.go.
use bacnet_ip_rest_proxy.Prelude.{
  ℕ, suc, Bool, true, false, not, ◌&&◌, List, [], ◌∷◌, ◌++◌, is_present, ℤ, pos, negsuc,
  if◌then◌else◌,
}
use bacnet_ip_rest_proxy.Prelude.Texts.{String, is_text}
use bacnet_ip_rest_proxy.Authz.{
  readonly, readwrite, other_permission, other_mode, other_action, is_allow, jwt_type, other_type,
}
use bacnet_ip_rest_proxy.Config.{
  ConditionConfig, RuleConfig, TokenConfig, OidcConfig, TlsConfig, Config, mode_of, action_of,
  permission_of, condition_type_of, Networks, parse_ip_or_cidr,
}

-- A `FieldError`, by its setting and what is wrong with it.
pub data ConfigError : Type 0 where
  cert_file_required : ConfigError
  key_file_required : ConfigError
  cache_refresh_negative : ConfigError
  bad_proxy : ℕ → ConfigError
  token_name_required : ℕ → ConfigError
  token_required : ℕ → ConfigError
  duplicate_token : ℕ → ConfigError
  issuer_required : ℕ → ConfigError
  bad_issuer : ℕ → ConfigError
  duplicate_issuer : ℕ → ConfigError
  audience_required : ℕ → ConfigError
  bad_match : ℕ → ConfigError
  bad_action : ℕ → ConfigError
  permission_required : ℕ → ConfigError
  bad_permission : ℕ → ConfigError
  field_required : ℕ → ℕ → ConfigError
  bad_condition : ℕ → ℕ → ConfigError

-- `if b { errs = append(errs, e) }`
abbrev pub error_if : Bool → ConfigError → List ConfigError
error_if true e = e ∷ []
error_if false e = []

unfoldable pub tls_errors : TlsConfig → List ConfigError
tls_errors t =
    if t.enabled
    then error_if (is_text t.cert_file "") cert_file_required
      ++ error_if (is_text t.key_file "") key_file_required
    else []

unfoldable pub is_negative : ℤ → Bool
is_negative (pos n) = false
is_negative (negsuc n) = true

unfoldable pub has_text : String → List String → Bool
has_text s [] = false
has_text s (t ∷ ts) = let rest = has_text s ts in if is_text t s then true else rest

-- The loop over the tokens; `seen` holds the names before.
unfoldable pub tokens_loop : ℕ → List String → List TokenConfig → List ConfigError
unfolding has_text
tokens_loop i seen [] = []
tokens_loop i seen (t ∷ ts) =
    error_if (is_text t.name "") (token_name_required i)
    ++ error_if (is_text t.token "") (token_required i)
    ++ error_if (not (is_text t.name "") && has_text t.name seen) (duplicate_token i)
    ++ tokens_loop (suc i) (t.name ∷ seen) ts

unfoldable pub match_errors : ℕ → RuleConfig → List ConfigError
match_errors i r = elim (mode_of r.match_text) [ other_mode s ↦ bad_match i ∷ [] | _ ↦ [] ]

unfoldable pub action_errors : ℕ → RuleConfig → List ConfigError
action_errors i r = elim (action_of r.action_text) [ other_action s ↦ bad_action i ∷ [] | _ ↦ [] ]

unfoldable pub permission_errors : ℕ → RuleConfig → List ConfigError
permission_errors i r =
    if is_allow (action_of r.action_text)
    then elim (permission_of r.permission_text) [
      | readonly ↦ []
      | readwrite ↦ []
      | other_permission s ↦
          if is_text s "" then permission_required i ∷ [] else bad_permission i ∷ []
    ]
    else []

unfoldable pub condition_errors : ℕ → ℕ → ConditionConfig → List ConfigError
condition_errors i j c = elim (condition_type_of c.type_text) [
  | jwt_type ↦ error_if (is_text c.field "") (field_required i j)
  | other_type s ↦ bad_condition i j ∷ []
  | _ ↦ []
]

unfoldable pub conditions_loop : ℕ → ℕ → List ConditionConfig → List ConfigError
unfolding condition_errors
conditions_loop i j [] = []
conditions_loop i j (c ∷ cs) = condition_errors i j c ++ conditions_loop i (suc j) cs

unfoldable pub rule_errors : ℕ → RuleConfig → List ConfigError
unfolding match_errors action_errors permission_errors conditions_loop
rule_errors i r =
    match_errors i r
    ++ action_errors i r
    ++ permission_errors i r
    ++ conditions_loop i 0 r.conditions

unfoldable pub rules_loop : ℕ → List RuleConfig → List ConfigError
unfolding rule_errors
rules_loop i [] = []
rules_loop i (r ∷ rs) = rule_errors i r ++ rules_loop (suc i) rs

module _ (n : Networks) (check_fetch_url : String → Bool) where
  unfoldable pub proxies_loop : ℕ → List String → List ConfigError
  unfolding parse_ip_or_cidr
  proxies_loop i [] = []
  proxies_loop i (p ∷ ps) =
      error_if (not (is_present (parse_ip_or_cidr n p))) (bad_proxy i) ++ proxies_loop (suc i) ps

  unfoldable pub issuer_errors : ℕ → List String → OidcConfig → List ConfigError
  unfolding has_text
  issuer_errors i seen o =
      if is_text o.issuer ""
      then issuer_required i ∷ []
      else if not (check_fetch_url o.issuer)
      then bad_issuer i ∷ []
      else error_if (has_text o.issuer seen) (duplicate_issuer i)

  unfoldable pub issuers_loop : ℕ → List String → List OidcConfig → List ConfigError
  unfolding issuer_errors
  issuers_loop i seen [] = []
  issuers_loop i seen (o ∷ os) =
      issuer_errors i seen o
      ++ error_if (is_text o.audience "") (audience_required i)
      ++ issuers_loop (suc i) (o.issuer ∷ seen) os

  -- `Validate`: every problem found, none for a valid configuration.
  unfoldable pub validate : Config → List ConfigError
  unfolding tls_errors is_negative proxies_loop tokens_loop issuers_loop rules_loop
  validate c =
      tls_errors c.tls
      ++ error_if (is_negative c.bacnet.cache_refresh) cache_refresh_negative
      ++ proxies_loop 0 c.trusted_proxies
      ++ tokens_loop 0 [] c.tokens
      ++ issuers_loop 0 [] c.oidc
      ++ rules_loop 0 c.rules
