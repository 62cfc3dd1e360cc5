-- ===== src/Auth/Laws.antt =====
-- What an authenticated credential is, internal/auth/auth.go.
use bacnet_ip_rest_proxy.Prelude.{
  ◌≡◌, refl, inl, inr, true, false, Option, none, some, Bool-cases, Option-cases,
}
use bacnet_ip_rest_proxy.Prelude.Texts.{String, is_text}
use bacnet_ip_rest_proxy.Auth.{
  Issuer, Peeked, Jwt, Authenticator, token_named, issuer_at, is_hmac, verify_hmac, verify_jwt,
  authenticate,
}

module _ {Claims : Type 0} (jwt : Jwt Claims) (a : Authenticator) where
  -- How the claims of a JWT came to be accepted: by the shared secret, if there is one, for an
  -- HMAC algorithm, and by the configured issuer that the token names for any other.
  pub data Verified (bearer : String) (c : Claims) : Type 0 where
    by_secret :
        {p : Peeked}
        → jwt.peek bearer ≡ some p
        → is_hmac p.alg ≡ true
        → is_text a.jwt_secret "" ≡ false
        → jwt.verify_hmac a.jwt_secret bearer ≡ some c
        → Verified bearer c
    by_issuer :
        {p : Peeked} {i : Issuer}
        → jwt.peek bearer ≡ some p
        → is_hmac p.alg ≡ false
        → issuer_at a.issuers p.iss ≡ some i
        → jwt.verify_issuer i bearer ≡ some c
        → Verified bearer c

  verify_jwt-Verified :
      (bearer : String) (p : Peeked) (c : Claims)
      → jwt.peek bearer ≡ some p
      → verify_jwt jwt a bearer p ≡ some c
      → Verified bearer c
  unfolding verify_jwt verify_hmac
  verify_jwt-Verified bearer p c peeked e = elim (Bool-cases (is_hmac p.alg)) [
    | inl hmac ↦ elim (Bool-cases (is_text a.jwt_secret "")) [
      | inl no_secret ↦ absurd (not_some (rw (hmac, no_secret, verify_jwt, verify_hmac) at e))
      | inr secret ↦ by_secret peeked hmac secret (rw (hmac, secret, verify_jwt, verify_hmac) at e)
    ]
    | inr other ↦ elim (Option-cases (issuer_at a.issuers p.iss)) [
      | inl unknown ↦ absurd (not_some (rw (other, unknown, verify_jwt) at e))
      | inr (i, known) ↦ by_issuer peeked other known (rw (other, known, verify_jwt) at e)
    ]
  ]
    where
      not_some : ◌≡◌ {A = Option Claims} none (some c) → ⊥
      not_some h = cc

  -- Claims are given only for a credential that is no configured token and that was verified, and
  -- never along with a token's name.
  pub authenticate-Verified :
      (bearer : String) (c : Claims)
      → (authenticate jwt a bearer).claims ≡ some c
      → (token_named a.tokens bearer ≡ none)
        × ((authenticate jwt a bearer).token_name ≡ "")
        × Verified bearer c
  unfolding authenticate
  authenticate-Verified bearer c e = elim (Bool-cases (is_text bearer "")) [
    | inl empty ↦ absurd (not_some (rw (empty, authenticate) at e))
    | inr given ↦ elim (Option-cases (token_named a.tokens bearer)) [
      | inr (name, token) ↦ absurd (not_some (rw (given, token, authenticate) at e))
      | inl no_token ↦ elim (Option-cases (jwt.peek bearer)) [
        | inl unreadable ↦ absurd (not_some (rw (given, no_token, unreadable, authenticate) at e))
        | inr (p, peeked) ↦ (
          no_token,
          rw (given, no_token, peeked, authenticate) refl,
          verify_jwt-Verified bearer p c peeked (rw (given, no_token, peeked, authenticate) at e),
        )
      ]
    ]
  ]
    where
      not_some : ◌≡◌ {A = Option Claims} none (some c) → ⊥
      not_some h = cc
