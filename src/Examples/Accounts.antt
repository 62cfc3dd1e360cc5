-- ===== src/Examples/Accounts.antt =====
-- The theorems about authentication and configuration at concrete credentials and settings.
use bacnet_ip_rest_proxy.Prelude.{
  ◌+◌, ℕ, ◌≡◌, ◌≢◌, refl, true, false, List, [], ◌∷◌, All, replicate, Option, none, some, pos,
  if◌then◌else◌,
}
use bacnet_ip_rest_proxy.Prelude.Texts.{String, is_text}
use bacnet_ip_rest_proxy.Prelude.Decimal.{Bytes, codes}
use bacnet_ip_rest_proxy.Auth.{Jwt, Authenticator, token_named, authenticate}
use bacnet_ip_rest_proxy.Auth.Laws.{Verified, authenticate-Verified}
use bacnet_ip_rest_proxy.Auth.Keys.{
  Verifier, new_verifier, ask_key, end_fetch, min_refresh_interval,
}
use bacnet_ip_rest_proxy.Auth.Keys.Laws.{Spaced, latest, Run, begins, asks, ends, Run-Spaced}
use bacnet_ip_rest_proxy.Auth.Jwk.{PublicKey, ed25519_key, Packages, check_fetch_url, fetch_keys}
use bacnet_ip_rest_proxy.Auth.Jwk.Laws.{AllUsable, fetch_keys-AllUsable}
use bacnet_ip_rest_proxy.Config.{
  Config, Networks, authz_rules, mode_of, action_of, permission_of, condition_type_of,
}
use bacnet_ip_rest_proxy.Authz.{is_allow}
use bacnet_ip_rest_proxy.Config.Validate.{validate}
use bacnet_ip_rest_proxy.Config.Laws.{IsNamed, validate-IsNamed}

-- A JWT is the text of its claims; the library takes those that begin with "good".
abbrev library : Jwt String
library = record {
  peek = λ bearer. some (record { alg = "RS256"; iss = "https://id.example" });
  verify_hmac = λ secret bearer. none;
  verify_issuer = λ issuer bearer. if is_text bearer "good" then some "claims" else none;
}

abbrev accounts : Authenticator
accounts = record {
  tokens = record { token_name = "panel"; token_value = "s3cret" } ∷ [];
  jwt_secret = "";
  issuers = record { url = "https://id.example"; audience = "proxy" } ∷ [];
}

good_claims : (authenticate library accounts "good").claims ≡ some "claims"
unfolding authenticate
good_claims = refl

panel_token : (authenticate library accounts "s3cret").token_name ≡ "panel"
unfolding authenticate
panel_token = refl

authenticate-Verified_example :
    (token_named accounts.tokens "good" ≡ none)
    × ((authenticate library accounts "good").token_name ≡ "")
    × Verified library accounts "good" "claims"
authenticate-Verified_example = authenticate-Verified library accounts "good" "claims" good_claims

abbrev asked_once : Verifier ℕ
asked_once = record { keys = []; fetched_at = 0; last_attempt = some 5; inflight = true }

first_ask : (ask_key {Key = ℕ} "k1" 5 new_verifier).1 ≡ asked_once
unfolding ask_key new_verifier
first_ask = refl

-- The fetch that the first call starts fails; the second call is too early to start one again, the
-- third is late enough.
abbrev idle : Verifier ℕ
idle = record asked_once { inflight = false }

abbrev asked_again : Verifier ℕ
asked_again = record asked_once { last_attempt = some (5 + min_refresh_interval) }

first-Run : Run {Key = ℕ} (5 ∷ []) asked_once
unfolding ask_key new_verifier
first-Run = asks "k1" 5 begins

failed-Run : Run {Key = ℕ} (5 ∷ []) idle
unfolding end_fetch
failed-Run = ends 6 none first-Run refl

early-Run : Run {Key = ℕ} (5 ∷ []) idle
unfolding ask_key
early-Run = asks "k2" 7 failed-Run

late-Run : Run {Key = ℕ} ((5 + min_refresh_interval) ∷ 5 ∷ []) asked_again
unfolding ask_key
late-Run = asks "k1" (5 + min_refresh_interval) early-Run

Run-Spaced_example :
    Spaced ((5 + min_refresh_interval) ∷ 5 ∷ [])
    × (asked_again.last_attempt ≡ latest ((5 + min_refresh_interval) ∷ 5 ∷ []))
Run-Spaced_example = Run-Spaced late-Run

abbrev packages : Packages
packages = record {
  parse_absolute_url =
      λ u. some (record { scheme = "https"; host = "id.example"; hostname = "id.example" });
  base64 = λ s. some (replicate 32 7);
  jwk_fields = λ raw. some (record {
    kty = "OKP";
    kid = "k1";
    use_of = "sig";
    crv = "Ed25519";
    n = "";
    e = "";
    x = "x";
    y = "";
  });
  on_curve = λ crv x y. true;
}

abbrev discovered : Option (String × String)
discovered = some ("https://id.example", "https://id.example/jwks")

abbrev document : String → Option (List Bytes)
document url = some (codes "{}" ∷ [])

one_key :
    fetch_keys packages "https://id.example" discovered document
    ≡ some (("k1", ed25519_key (replicate 32 7)) ∷ [])
unfolding fetch_keys
one_key = refl

fetch_keys-AllUsable_example :
    (d : String × String) × (discovered ≡ some d)
    × (is_text d.0 "https://id.example" ≡ true)
    × (check_fetch_url packages d.1 ≡ true)
    × ◌≢◌ {A = List (String × PublicKey)} (("k1", ed25519_key (replicate 32 7)) ∷ []) []
    × AllUsable packages (("k1", ed25519_key (replicate 32 7)) ∷ [])
fetch_keys-AllUsable_example =
    fetch_keys-AllUsable packages "https://id.example" discovered document
      (("k1", ed25519_key (replicate 32 7)) ∷ []) one_key

abbrev networks : Networks
networks = record {
  Net = String;
  Ip = String;
  parse_cidr = λ s. some s;
  parse_ip = λ s. some s;
  single_net = λ ip. ip;
}

abbrev settings : Config
settings = record {
  address = "";
  tls = record { enabled = false; cert_file = ""; key_file = "" };
  trusted_proxies = "10.0.0.0/8" ∷ [];
  bacnet = record { local_port = pos 0; timeout = pos 0; retries = pos 0; cache_refresh = pos 0 };
  tokens = record { name = "panel"; token = "s3cret" } ∷ [];
  jwt_secret = "";
  oidc = [];
  rules =
      record {
        name = "panel";
        conditions = record { type_text = "token"; field = ""; value = "panel" } ∷ [];
        match_text = "all";
        permission_text = "readonly";
        action_text = "allow";
      }
      ∷ [];
  devices = [];
}

settings_valid : validate networks (λ u. true) settings ≡ []
unfolding validate mode_of action_of is_allow permission_of condition_type_of
settings_valid = refl

validate-IsNamed_example : All IsNamed (authz_rules settings.rules)
validate-IsNamed_example = validate-IsNamed networks (λ u. true) settings settings_valid
