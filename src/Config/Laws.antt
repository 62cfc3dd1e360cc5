-- ===== src/Config/Laws.antt =====
-- What a configuration without errors guarantees, internal/config/config.go.
use mathlib.Core.Path.{subst}
use text.Mathlib.TextEquality.{eq_iff}
use bacnet_ip_rest_proxy.Prelude.{
  ℕ, suc, ◌≡◌, ◌≢◌, ◌⊎◌, refl, ap, ◌∙◌, inl, inr, Bool, true, false, not, ◌&&◌, List, [], ◌∷◌, ◌++◌,
  All, length, Option, none, some, is_present, Bool-cases, Option-cases, arith,
}
use bacnet_ip_rest_proxy.Prelude.Texts.{String, is_text}
use bacnet_ip_rest_proxy.Authz.{
  readonly, readwrite, other_mode, other_action, other_type, Rule, is_allow,
}
use bacnet_ip_rest_proxy.Auth.{token_named}
use bacnet_ip_rest_proxy.Config.{
  ConditionConfig, RuleConfig, TokenConfig, Config, mode_of, action_of, permission_of,
  condition_type_of, condition_of, conditions_of, rule_of, authz_rules, auth_tokens, Networks,
  parse_ip_or_cidr, trusted_proxy_nets,
}
use bacnet_ip_rest_proxy.Config.Validate.{
  ConfigError, error_if, match_errors, action_errors, permission_errors, condition_errors,
  conditions_loop, rule_errors, rules_loop, tokens_loop, proxies_loop, validate,
  token_name_required, token_required, duplicate_token, cache_refresh_negative, bad_proxy, has_text,
  is_negative, tls_errors, issuers_loop,
}

append-eq-nil : (xs ys : List ConfigError) → xs ++ ys ≡ [] → (xs ≡ []) × (ys ≡ [])
append-eq-nil [] ys h = (refl, h)
append-eq-nil (x ∷ xs) ys h = cc

error_if-eq-nil : (b : Bool) (e : ConfigError) → error_if b e ≡ [] → b ≡ false
error_if-eq-nil true e h = cc
error_if-eq-nil false e h = refl

-- A rule whose mode, action and condition types are the named constants, and whose permission is
-- one if the rule allows.
abbrev pub IsNamed : Rule → Type 0
IsNamed r =
    ((s : String) → r.mode ≢ other_mode s)
    × ((s : String) → r.action ≢ other_action s)
    × All (λ c. (s : String) → c.condition_type ≢ other_type s) r.conditions
    × (is_allow r.action ≡ true → (r.permission ≡ readonly) ⊎ (r.permission ≡ readwrite))

match_errors-named :
    (i : ℕ) (r : RuleConfig) (s : String)
    → match_errors i r ≡ []
    → mode_of r.match_text ≢ other_mode s
unfolding match_errors
match_errors-named i r s h e = absurd (cons_nil (rw (e, match_errors) at h))
  where
    cons_nil : {x : ConfigError} {xs : List ConfigError} → x ∷ xs ≡ [] → ⊥
    cons_nil q = cc

action_errors-named :
    (i : ℕ) (r : RuleConfig) (s : String)
    → action_errors i r ≡ []
    → action_of r.action_text ≢ other_action s
unfolding action_errors
action_errors-named i r s h e = absurd (cons_nil (rw (e, action_errors) at h))
  where
    cons_nil : {x : ConfigError} {xs : List ConfigError} → x ∷ xs ≡ [] → ⊥
    cons_nil q = cc

condition_errors-named :
    (i j : ℕ) (c : ConditionConfig) (s : String)
    → condition_errors i j c ≡ []
    → condition_type_of c.type_text ≢ other_type s
unfolding condition_errors
condition_errors-named i j c s h e = absurd (cons_nil (rw (e, condition_errors) at h))
  where
    cons_nil : {x : ConfigError} {xs : List ConfigError} → x ∷ xs ≡ [] → ⊥
    cons_nil q = cc

permission_errors-named :
    (i : ℕ) (r : RuleConfig)
    → permission_errors i r ≡ []
    → is_allow (action_of r.action_text) ≡ true
    → (permission_of r.permission_text ≡ readonly) ⊎ (permission_of r.permission_text ≡ readwrite)
unfolding permission_errors
permission_errors-named i r h allows = ground (arith, h, allows)

conditions_loop-named :
    (i j : ℕ) (cs : List ConditionConfig)
    → conditions_loop i j cs ≡ []
    → All (λ c. (s : String) → c.condition_type ≢ other_type s) (conditions_of cs)
unfolding conditions_loop conditions_of condition_of
conditions_loop-named i j [] h = tt
conditions_loop-named i j (c ∷ cs) h =
    let (here, rest) = append-eq-nil (condition_errors i j c) (conditions_loop i (suc j) cs) h in
    ((λ s. condition_errors-named i j c s here), conditions_loop-named i (suc j) cs rest)

rule_errors-IsNamed : (i : ℕ) (r : RuleConfig) → rule_errors i r ≡ [] → IsNamed (rule_of r)
unfolding rule_errors rule_of
rule_errors-IsNamed i r h =
    let conditions = conditions_loop i 0 r.conditions in
    let permission = permission_errors i r in
    let (first, c) =
      append-eq-nil (match_errors i r ++ action_errors i r ++ permission) conditions h in
    let (first', p) = append-eq-nil (match_errors i r ++ action_errors i r) permission first in
    let (m, a) = append-eq-nil (match_errors i r) (action_errors i r) first' in
    (
      (λ s. match_errors-named i r s m),
      (λ s. action_errors-named i r s a),
      conditions_loop-named i 0 r.conditions c,
      permission_errors-named i r p,
    )

rules_loop-IsNamed :
    (i : ℕ) (rs : List RuleConfig) → rules_loop i rs ≡ [] → All IsNamed (authz_rules rs)
unfolding rules_loop authz_rules
rules_loop-IsNamed i [] h = tt
rules_loop-IsNamed i (r ∷ rs) h =
    let (here, rest) = append-eq-nil (rule_errors i r) (rules_loop (suc i) rs) h in
    (rule_errors-IsNamed i r here, rules_loop-IsNamed (suc i) rs rest)

is_text_self : (s : String) → is_text s s ≡ true
is_text_self s = (eq_iff s s).1 refl

nonempty : (s : String) → is_text s "" ≡ false → s ≢ ""
nonempty s h e = absurd (clash (rw e at h))
  where
    clash : is_text "" "" ≡ false → ⊥
    clash q = cc

token_parts :
    (i : ℕ) (seen : List String) (t : TokenConfig) (ts : List TokenConfig)
    → tokens_loop i seen (t ∷ ts) ≡ []
    → (is_text t.name "" ≡ false)
      × (is_text t.token "" ≡ false)
      × (tokens_loop (suc i) (t.name ∷ seen) ts ≡ [])
unfolding tokens_loop
token_parts i seen t ts h =
    let others = tokens_loop (suc i) (t.name ∷ seen) ts in
    let twice = error_if (not (is_text t.name "") && has_text t.name seen) (duplicate_token i) in
    let unset = error_if (is_text t.token "") (token_required i) in
    let unnamed = error_if (is_text t.name "") (token_name_required i) in
    let (first, rest) = append-eq-nil (unnamed ++ unset ++ twice) others h in
    let (first', once) = append-eq-nil (unnamed ++ unset) twice first in
    let (named, given) = append-eq-nil unnamed unset first' in
    (error_if-eq-nil _ _ named, error_if-eq-nil _ _ given, rest)

some_text : {s t : String} → some s ≡ some t → s ≡ t
some_text h = cc

no_text : {t : String} → ◌≡◌ {A = Option String} none (some t) → ⊥
no_text h = cc

tokens_loop-nonempty :
    (i : ℕ) (seen : List String) (ts : List TokenConfig) (bearer name : String)
    → tokens_loop i seen ts ≡ []
    → token_named (auth_tokens ts) bearer ≡ some name
    → (name ≢ "") × (bearer ≢ "")
unfolding tokens_loop auth_tokens token_named
tokens_loop-nonempty i seen [] bearer name h e = cc
tokens_loop-nonempty i seen (t ∷ ts) bearer name h e =
    let (named, given, rest) = token_parts i seen t ts h in
    elim (Option-cases (token_named (auth_tokens ts) bearer)) [
      | inr (other, found) ↦
          tokens_loop-nonempty (suc i) (t.name ∷ seen) ts bearer name rest
            (found ∙ (rw (found, token_named) at e))
      | inl missing ↦ elim (Bool-cases (is_text t.token bearer)) [
        | inl same ↦
            let named_so : t.name ≡ name = some_text (rw (missing, same, token_named) at e) in
            let token_so : t.token ≡ bearer = (eq_iff t.token bearer).0 same in
            (
              subst (λ s. s ≢ "") named_so (nonempty t.name named),
              subst (λ s. s ≢ "") token_so (nonempty t.token given),
            )
        | inr other ↦ absurd (no_text (rw (missing, other, token_named) at e))
      ]
    ]

proxies_loop-length :
    (n : Networks) (check_fetch_url : String → Bool) (i : ℕ) (ps : List String)
    → proxies_loop n check_fetch_url i ps ≡ []
    → length (trusted_proxy_nets n ps) ≡ length ps
unfolding proxies_loop trusted_proxy_nets
proxies_loop-length n check_fetch_url i [] h = refl
proxies_loop-length n check_fetch_url i (p ∷ ps) h =
    let (here, rest) =
      append-eq-nil (error_if (not (is_present (parse_ip_or_cidr n p))) (bad_proxy i))
        (proxies_loop n check_fetch_url (suc i) ps) h in
    let good = error_if-eq-nil (not (is_present (parse_ip_or_cidr n p))) (bad_proxy i) here in
    elim (Option-cases (parse_ip_or_cidr n p)) [
      | inr (net, parsed) ↦
          rw (parsed, trusted_proxy_nets)
            (ap suc (proxies_loop-length n check_fetch_url (suc i) ps rest))
      | inl unparsed ↦ absurd (clash (rw unparsed at good))
    ]
  where
    clash : true ≡ false → ⊥
    clash q = cc

module _ (n : Networks) (check_fetch_url : String → Bool) where
  validate_parts :
      (c : Config)
      → validate n check_fetch_url c ≡ []
      → (proxies_loop n check_fetch_url 0 c.trusted_proxies ≡ [])
        × (tokens_loop 0 [] c.tokens ≡ [])
        × (rules_loop 0 c.rules ≡ [])
  unfolding validate
  validate_parts c h =
      let rules = rules_loop 0 c.rules in
      let issuers = issuers_loop n check_fetch_url 0 [] c.oidc in
      let tokens = tokens_loop 0 [] c.tokens in
      let proxies = proxies_loop n check_fetch_url 0 c.trusted_proxies in
      let refresh = error_if (is_negative c.bacnet.cache_refresh) cache_refresh_negative in
      let first = tls_errors c.tls ++ refresh in
      let (h1, r) = append-eq-nil (first ++ proxies ++ tokens ++ issuers) rules h in
      let (h2, _) = append-eq-nil (first ++ proxies ++ tokens) issuers h1 in
      let (h3, t) = append-eq-nil (first ++ proxies) tokens h2 in
      let (_, p) = append-eq-nil first proxies h3 in (p, t, r)

  -- The rules of a configuration without errors have named modes, actions and condition types, and
  -- every rule that allows has a named permission.
  pub validate-IsNamed :
      (c : Config) → validate n check_fetch_url c ≡ [] → All IsNamed (authz_rules c.rules)
  validate-IsNamed c h = let (_, _, r) = validate_parts c h in rules_loop-IsNamed 0 c.rules r

  -- Under a configuration without errors, a credential that is recognized as a token is not
  -- empty, and neither is the token's name.
  pub validate-token_named :
      (c : Config) (bearer name : String)
      → validate n check_fetch_url c ≡ []
      → token_named (auth_tokens c.tokens) bearer ≡ some name
      → (name ≢ "") × (bearer ≢ "")
  validate-token_named c bearer name h e =
      let (_, t, _) = validate_parts c h in tokens_loop-nonempty 0 [] c.tokens bearer name t e

  -- Of a configuration without errors, every trusted proxy becomes a network.
  pub validate-trusted_proxy_nets :
      (c : Config)
      → validate n check_fetch_url c ≡ []
      → length (trusted_proxy_nets n c.trusted_proxies) ≡ length c.trusted_proxies
  validate-trusted_proxy_nets c h =
      let (p, _, _) = validate_parts c h in
      proxies_loop-length n check_fetch_url 0 c.trusted_proxies p
