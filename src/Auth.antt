-- ===== src/Auth.antt =====
-- Authentication of a bearer credential, internal/auth/auth.go.
pub mod Laws
pub mod Keys
pub mod Jwk
use bacnet_ip_rest_proxy.Prelude.{
  ℕ, Bool, true, false, List, [], ◌∷◌, Option, none, some, if◌then◌else◌,
}
use bacnet_ip_rest_proxy.Prelude.Texts.{String, is_text}

-- An entry of `authentication.tokens`, and an issuer.
pub record Token : Type 0 where
  pub token_name : String
  pub token_value : String

pub record Issuer : Type 0 where
  pub url : String
  pub audience : String

-- What `ParseUnverified` finds in a JWT: the algorithm, and the issuer, "" if there is none.
pub record Peeked : Type 0 where
  pub alg : String
  pub iss : String

-- The JWT library: the unverified look, the verification with a shared secret, which accepts the
-- algorithms HS256, HS384 and HS512 only, and the verification with an issuer's keys.
pub record Jwt (Claims : Type 0) : Type 0 where
  pub peek : String → Option Peeked
  pub verify_hmac : String → String → Option Claims
  pub verify_issuer : Issuer → String → Option Claims

-- `Authenticator`, as `NewAuthenticator` makes it from its options; a secret "" is none.
pub record Authenticator : Type 0 where
  pub tokens : List Token
  pub jwt_secret : String
  pub issuers : List Issuer

-- The maps `tokensByValue` and `issuers`: of several entries with one key, the last counts.
unfoldable pub token_named : List Token → String → Option String
token_named [] bearer = none
token_named (t ∷ ts) bearer = elim (token_named ts bearer) [
  | some name ↦ some name
  | none ↦ if is_text t.token_value bearer then some t.token_name else none
]

unfoldable pub issuer_at : List Issuer → String → Option Issuer
issuer_at [] url = none
issuer_at (i ∷ is) url = elim (issuer_at is url) [
  | some j ↦ some j
  | none ↦ if is_text i.url url then some i else none
]

pub record AuthResult (Claims : Type 0) : Type 0 where
  pub token_name : String
  pub claims : Option Claims

-- `strings.HasPrefix(alg, "HS")`
unfoldable pub is_hmac : String → Bool
is_hmac (String.◌∷◌ c (String.◌∷◌ d s)) = is_text (String.◌∷◌ c (String.◌∷◌ d String.[])) "HS"
is_hmac s = false

module _ {Claims : Type 0} (jwt : Jwt Claims) (a : Authenticator) where
  abbrev pub with_claims : Option Claims → AuthResult Claims
  with_claims claims = record { token_name = ""; claims = claims }

  unfoldable pub verify_hmac : String → Option Claims
  verify_hmac bearer = if is_text a.jwt_secret "" then none else jwt.verify_hmac a.jwt_secret bearer

  unfoldable pub verify_jwt : String → Peeked → Option Claims
  unfolding is_hmac verify_hmac issuer_at
  verify_jwt bearer p = elim (is_hmac p.alg) [
    | true ↦ verify_hmac bearer
    | false ↦ elim (issuer_at a.issuers p.iss) [ none ↦ none | some i ↦ jwt.verify_issuer i bearer ]
  ]

  unfoldable pub authenticate : String → AuthResult Claims
  unfolding token_named verify_jwt
  authenticate bearer = elim (is_text bearer "") [
    | true ↦ with_claims none
    | false ↦ elim (token_named a.tokens bearer) [
      | some name ↦ record { token_name = name; claims = none }
      | none ↦ elim (jwt.peek bearer) [
        | none ↦ with_claims none
        | some p ↦ with_claims (verify_jwt bearer p)
      ]
    ]
  ]
