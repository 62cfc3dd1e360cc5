-- ===== src/Auth/Jwk.antt =====
-- The public keys of an issuer, internal/auth/oidc.go: parseJWK, CheckFetchURL and fetchKeys.
pub mod Laws
use bacnet_ip_rest_proxy.Prelude.{
  ℕ, ◌+◌, ◌-◌, ◌*◌, ◌^◌, Bool, true, false, not, ◌&&◌, ◌||◌, List, [], ◌∷◌, length, Option, none,
  some, ltb, ◌==◌, if◌then◌else◌,
}
use bacnet_ip_rest_proxy.Prelude.Texts.{String, is_text}
use bacnet_ip_rest_proxy.Prelude.Decimal.{Bytes}

-- The fields of a JWK.
pub record JwkFields : Type 0 where
  pub kty : String
  pub kid : String
  pub use_of : String
  pub crv : String
  pub n : String
  pub e : String
  pub x : String
  pub y : String

-- An RSA key's modulus, as its bytes, and exponent; the coordinates of a point on a curve.
pub data PublicKey : Type 0 where
  rsa_key : Bytes → ℕ → PublicKey
  ec_key : String → Bytes → Bytes → PublicKey
  ed25519_key : Bytes → PublicKey

pub record FetchUrl : Type 0 where
  pub scheme : String
  pub host : String
  pub hostname : String

-- The packages net/url, base64 and crypto: an absolute URL's parts, the bytes of a text in
-- unpadded URL base64, the JSON of a JWK, and the test that a point is on a curve.
pub record Packages : Type 0 where
  pub parse_absolute_url : String → Option FetchUrl
  pub base64 : String → Option Bytes
  pub jwk_fields : Bytes → Option JwkFields
  pub on_curve : String → Bytes → Bytes → Bool

unfoldable pub big_endian : ℕ → Bytes → ℕ
big_endian acc [] = acc
big_endian acc (b ∷ s) = big_endian (acc * 256 + b) s

-- The bytes of a coordinate on a supported curve.
unfoldable pub curve_size : String → Option ℕ
curve_size crv =
    if is_text crv "P-256"
    then some 32
    else if is_text crv "P-384"
    then some 48
    else if is_text crv "P-521"
    then some 66
    else none

module _ (p : Packages) where
  unfoldable pub rsa_of : Bytes → Bytes → Option PublicKey
  unfolding big_endian
  rsa_of n e =
      let exponent = big_endian 0 e in
      if ltb (length n * 8) 2048
      then none
      else if ltb exponent 3 || ltb (2 ^ 31 - 1) exponent
      then none
      else some (rsa_key n exponent)

  unfoldable pub ec_of : String → ℕ → Bytes → Bytes → Option PublicKey
  ec_of crv size x y =
      if not (length x == size) || not (length y == size)
      then none
      else if p.on_curve crv x y
      then some (ec_key crv x y)
      else none

  unfoldable pub ed25519_of : Bytes → Option PublicKey
  ed25519_of x = if length x == 32 then some (ed25519_key x) else none

  -- Two texts of base64.
  unfoldable pub both_decoded :
      String → String → (Bytes → Bytes → Option PublicKey) → Option PublicKey
  both_decoded s t key = elim (p.base64 s) [
    | none ↦ none
    | some a ↦ elim (p.base64 t) [ none ↦ none | some b ↦ key a b ]
  ]

  unfoldable pub key_of : JwkFields → Option PublicKey
  unfolding both_decoded rsa_of ec_of ed25519_of curve_size
  key_of jwk =
      if not (is_text jwk.use_of "") && not (is_text jwk.use_of "sig")
      then none
      else if is_text jwk.kty "RSA"
      then both_decoded jwk.n jwk.e rsa_of
      else if is_text jwk.kty "EC"
      then elim (curve_size jwk.crv) [
        | none ↦ none
        | some size ↦ both_decoded jwk.x jwk.y (ec_of jwk.crv size)
      ]
      else if is_text jwk.kty "OKP" && is_text jwk.crv "Ed25519"
      then elim (p.base64 jwk.x) [ none ↦ none | some x ↦ ed25519_of x ]
      else none

  -- `CheckFetchURL`
  unfoldable pub check_fetch_url : String → Bool
  check_fetch_url u = elim (p.parse_absolute_url u) [
    | none ↦ false
    | some url ↦
        if is_text url.host ""
        then false
        else if is_text url.scheme "https"
        then true
        else if is_text url.scheme "http"
        then is_text url.hostname "localhost"
          || is_text url.hostname "127.0.0.1"
          || is_text url.hostname "::1"
        else false
  ]

  -- The loop of `fetchKeys` over the keys of the document; unusable ones are skipped.
  unfoldable pub usable_keys : List Bytes → List (String × PublicKey)
  unfolding key_of
  usable_keys [] = []
  usable_keys (raw ∷ raws) =
      let rest = usable_keys raws in
      elim (p.jwk_fields raw) [
        | none ↦ rest
        | some jwk ↦ elim (key_of jwk) [ none ↦ rest | some key ↦ (jwk.kid, key) ∷ rest ]
      ]

  -- `fetchKeys`, from what the two requests get: the discovery document's issuer and jwks_uri, and
  -- the document's keys at an address.
  unfoldable pub fetch_keys :
      String
      → Option (String × String)
      → (String → Option (List Bytes))
      → Option (List (String × PublicKey))
  unfolding check_fetch_url usable_keys
  fetch_keys url discovery jwks = elim discovery [
    | none ↦ none
    | some d ↦
        if not (is_text d.0 url) || not (check_fetch_url d.1) then none else elim (jwks d.1) [
          | none ↦ none
          | some raws ↦ elim (usable_keys raws) [ [] ↦ none | k ∷ ks ↦ some (k ∷ ks) ]
        ]
  ]
