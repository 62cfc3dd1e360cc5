-- ===== src/Config.antt =====
-- The configuration, internal/config/config.go: the settings that YAML gives, their defaults, and
-- what the other packages are given of them. Durations are nanoseconds.
pub mod Validate
pub mod Laws
use bacnet_ip_rest_proxy.Prelude.{
  ℕ, ◌*◌, Bool, true, false, List, [], ◌∷◌, Option, none, some, ◌==◌, ℤ, pos, negsuc, if◌then◌else◌,
}
use bacnet_ip_rest_proxy.Prelude.Texts.{String, is_text, has_slash}
use bacnet_ip_rest_proxy.Authz.{
  Permission, readonly, readwrite, other_permission, MatchMode, match_none, match_not_all,
  match_any, match_all, other_mode, Action, allow_now, deny_now, allow, deny, other_action,
  ConditionType, device_type, ip_type, jwt_type, operation_type, token_type, variable_type,
  other_type, Condition, Rule,
}
use bacnet_ip_rest_proxy.Auth.{Token, Issuer}

pub record ConditionConfig : Type 0 where
  pub type_text : String
  pub field : String
  pub value : String

pub record RuleConfig : Type 0 where
  pub name : String
  pub conditions : List ConditionConfig
  pub match_text : String
  pub permission_text : String
  pub action_text : String

pub record TokenConfig : Type 0 where
  pub name : String
  pub token : String

pub record OidcConfig : Type 0 where
  pub issuer : String
  pub audience : String

pub record TlsConfig : Type 0 where
  pub enabled : Bool
  pub cert_file : String
  pub key_file : String

pub record BacnetConfig : Type 0 where
  pub local_port : ℤ
  pub timeout : ℤ
  pub retries : ℤ
  pub cache_refresh : ℤ

pub record Config : Type 0 where
  pub address : String
  pub tls : TlsConfig
  pub trusted_proxies : List String
  pub bacnet : BacnetConfig
  pub tokens : List TokenConfig
  pub jwt_secret : String
  pub oidc : List OidcConfig
  pub rules : List RuleConfig
  pub devices : List (String × String)

-- A number that is zero, as one that is not set is.
unfoldable pub or_default : ℤ → ℤ → ℤ
or_default (pos n) d = if n == 0 then d else pos n
or_default (negsuc n) d = negsuc n

unfoldable pub apply_defaults : Config → Config
unfolding or_default
apply_defaults c = record c {
  address = if is_text c.address "" then ":8443" else c.address;
  bacnet = record c.bacnet {
    timeout = or_default c.bacnet.timeout (pos (3 * 1_000_000_000));
    retries = or_default c.bacnet.retries (pos 3);
    cache_refresh = or_default c.bacnet.cache_refresh (pos (60 * 1_000_000_000));
  };
}

-- The conversions to the string types of internal/authz.
unfoldable pub mode_of : String → MatchMode
mode_of s =
    if is_text s "none"
    then match_none
    else if is_text s "not-all"
    then match_not_all
    else if is_text s "any"
    then match_any
    else if is_text s "all"
    then match_all
    else other_mode s

unfoldable pub action_of : String → Action
action_of s =
    if is_text s "allow-now"
    then allow_now
    else if is_text s "deny-now"
    then deny_now
    else if is_text s "allow"
    then allow
    else if is_text s "deny"
    then deny
    else other_action s

unfoldable pub permission_of : String → Permission
permission_of s =
    if is_text s "readonly"
    then readonly
    else if is_text s "readwrite"
    then readwrite
    else other_permission s

unfoldable pub condition_type_of : String → ConditionType
condition_type_of s =
    if is_text s "device"
    then device_type
    else if is_text s "ip"
    then ip_type
    else if is_text s "jwt"
    then jwt_type
    else if is_text s "operation"
    then operation_type
    else if is_text s "token"
    then token_type
    else if is_text s "variable"
    then variable_type
    else other_type s

unfoldable pub condition_of : ConditionConfig → Condition
unfolding condition_type_of
condition_of c = record {
  condition_type = condition_type_of c.type_text;
  field = c.field;
  value = c.value;
}

unfoldable pub conditions_of : List ConditionConfig → List Condition
unfolding condition_of
conditions_of [] = []
conditions_of (c ∷ cs) = condition_of c ∷ conditions_of cs

unfoldable pub rule_of : RuleConfig → Rule
unfolding conditions_of mode_of permission_of action_of
rule_of r = record {
  name = r.name;
  conditions = conditions_of r.conditions;
  mode = mode_of r.match_text;
  permission = permission_of r.permission_text;
  action = action_of r.action_text;
}

-- `AuthzRules`, `AuthTokens` and `AuthIssuers`
unfoldable pub authz_rules : List RuleConfig → List Rule
unfolding rule_of
authz_rules [] = []
authz_rules (r ∷ rs) = rule_of r ∷ authz_rules rs

unfoldable pub auth_tokens : List TokenConfig → List Token
auth_tokens [] = []
auth_tokens (t ∷ ts) = record { token_name = t.name; token_value = t.token } ∷ auth_tokens ts

unfoldable pub auth_issuers : List OidcConfig → List Issuer
auth_issuers [] = []
auth_issuers (o ∷ os) = record { url = o.issuer; audience = o.audience } ∷ auth_issuers os

-- The package net: networks and addresses, and the network of one address.
pub record Networks : Type 1 where
  pub Net : Type 0
  pub Ip : Type 0
  pub parse_cidr : String → Option Net
  pub parse_ip : String → Option Ip
  pub single_net : Ip → Net

module _ (n : Networks) where
  unfoldable pub parse_ip_or_cidr : String → Option n.Net
  unfolding has_slash
  parse_ip_or_cidr s =
      if has_slash s
      then n.parse_cidr s
      else elim (n.parse_ip s) [ none ↦ none | some ip ↦ some (n.single_net ip) ]

  -- `TrustedProxyNets`, which leaves out what it cannot parse.
  unfoldable pub trusted_proxy_nets : List String → List n.Net
  unfolding parse_ip_or_cidr
  trusted_proxy_nets [] = []
  trusted_proxy_nets (s ∷ ss) =
      let rest = trusted_proxy_nets ss in
      elim (parse_ip_or_cidr s) [ none ↦ rest | some net ↦ net ∷ rest ]
