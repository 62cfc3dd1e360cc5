-- ===== src/Auth/Jwk/Laws.antt =====
-- Which keys of an issuer are used, and from where they are fetched, internal/auth/oidc.go.
use mathlib.Core.List.{cons-ne-nil}
use bacnet_ip_rest_proxy.Prelude.{
  List-cases, ℕ, ◌-◌, ◌≤◌, ◌<◌, ◌*◌, ◌^◌, ◌≡◌, ◌≢◌, refl, inl, inr, Bool, true, false, not, ◌&&◌,
  ◌||◌, List, [], ◌∷◌, All, length, Option, none, some, ltb, ◌==◌, ==_iff, if◌then◌else◌,
  Bool-cases, Option-cases, arith,
}
use bacnet_ip_rest_proxy.Prelude.Texts.{String, is_text}
use bacnet_ip_rest_proxy.Prelude.Decimal.{Bytes}
use bacnet_ip_rest_proxy.Auth.Jwk.{
  JwkFields, PublicKey, rsa_key, ec_key, ed25519_key, Packages, big_endian, curve_size, rsa_of,
  ec_of, ed25519_of, both_decoded, key_of, check_fetch_url, usable_keys, fetch_keys,
}

no_keys :
    {keys : List (String × PublicKey)}
    → ◌≡◌ {A = Option (List (String × PublicKey))} none (some keys)
    → ⊥
no_keys h = cc

some_keys :
    {keys others : List (String × PublicKey)}
    → ◌≡◌ {A = Option (List (String × PublicKey))} (some keys) (some others)
    → keys ≡ others
some_keys h = cc

module _ (p : Packages) where
  -- A key that can verify signatures: an RSA key whose modulus has at least 256 bytes, with an
  -- exponent between 3 and 2 ^ 31 - 1; a point of a supported curve with coordinates of its
  -- size; an Ed25519 key of 32 bytes.
  abbrev pub IsUsable : PublicKey → Type 0
  IsUsable (rsa_key n e) = (256 ≤ length n) × (3 ≤ e) × (e < 2 ^ 31)
  IsUsable (ec_key crv x y) =
      (curve_size crv ≡ some (length x))
      × (curve_size crv ≡ some (length y))
      × (p.on_curve crv x y ≡ true)
  IsUsable (ed25519_key x) = length x ≡ 32

  abbrev IfUsable : Option PublicKey → Type 0
  IfUsable none = Unit {0}
  IfUsable (some k) = IsUsable k

  IfUsable-if :
      (b : Bool) (x y : Option PublicKey)
      → (b ≡ true → IfUsable x)
      → (b ≡ false → IfUsable y)
      → IfUsable (if b then x else y)
  IfUsable-if true x y hx hy = hx refl
  IfUsable-if false x y hx hy = hy refl

  rsa_of-IfUsable : (n e : Bytes) → IfUsable (rsa_of p n e)
  unfolding rsa_of
  rsa_of-IfUsable n e =
      IfUsable-if (ltb (length n * 8) 2048) none _ (λ _. tt)
        λ long.
          IfUsable-if (ltb (big_endian 0 e) 3 || ltb (2 ^ 31 - 1) (big_endian 0 e)) none _ (λ _. tt)
            λ fits. (ground (arith, long), ground (arith, fits), ground (arith, fits))

  ec_of-IfUsable :
      (crv : String) (size : ℕ) (x y : Bytes)
      → curve_size crv ≡ some size
      → IfUsable (ec_of p crv size x y)
  unfolding ec_of
  ec_of-IfUsable crv size x y known =
      IfUsable-if (not (length x == size) || not (length y == size)) none _ (λ _. tt)
        λ sizes.
          IfUsable-if (p.on_curve crv x y) (some (ec_key crv x y)) none
            (λ on. (ground (arith, known, sizes), ground (arith, known, sizes), on)) (λ _. tt)

  ed25519_of-IfUsable : (x : Bytes) → IfUsable (ed25519_of p x)
  unfolding ed25519_of
  ed25519_of-IfUsable x =
      IfUsable-if (length x == 32) _ none (λ size. (==_iff (length x) 32).0 size) (λ _. tt)

  both_decoded-IfUsable :
      (s t : String) (key : Bytes → Bytes → Option PublicKey)
      → ((a b : Bytes) → IfUsable (key a b))
      → IfUsable (both_decoded p s t key)
  unfolding both_decoded
  both_decoded-IfUsable s t key h = elim (Option-cases (p.base64 s)) [
    | inl bad ↦ rw (bad, both_decoded) tt
    | inr (a, e) ↦ elim (Option-cases (p.base64 t)) [
      | inl bad ↦ rw (e, bad, both_decoded) tt
      | inr (b, f) ↦ rw (e, f, both_decoded) (h a b)
    ]
  ]

  curve_key-IfUsable :
      (jwk : JwkFields)
      → IfUsable (elim (curve_size jwk.crv) [
        | none ↦ none
        | some size ↦ both_decoded p jwk.x jwk.y (ec_of p jwk.crv size)
      ])
  curve_key-IfUsable jwk = elim (Option-cases (curve_size jwk.crv)) [
    | inl unknown ↦ rw unknown tt
    | inr (size, known) ↦ rw known (
        both_decoded-IfUsable jwk.x jwk.y (ec_of p jwk.crv size)
          (λ x y. ec_of-IfUsable jwk.crv size x y known))
  ]

  okp_key-IfUsable :
      (jwk : JwkFields) → IfUsable (elim (p.base64 jwk.x) [ none ↦ none | some x ↦ ed25519_of p x ])
  okp_key-IfUsable jwk = elim (Option-cases (p.base64 jwk.x)) [
    | inl bad ↦ rw bad tt
    | inr (x, e) ↦ rw e (ed25519_of-IfUsable x)
  ]

  key_of-IfUsable : (jwk : JwkFields) → IfUsable (key_of p jwk)
  unfolding key_of
  key_of-IfUsable jwk =
      IfUsable-if (not (is_text jwk.use_of "") && not (is_text jwk.use_of "sig")) none _ (λ _. tt)
        λ _.
          IfUsable-if (is_text jwk.kty "RSA") _ _
            (λ _. both_decoded-IfUsable jwk.n jwk.e (rsa_of p) rsa_of-IfUsable)
            λ _.
              IfUsable-if (is_text jwk.kty "EC") _ _ (λ _. curve_key-IfUsable jwk)
                λ _.
                  IfUsable-if (is_text jwk.kty "OKP" && is_text jwk.crv "Ed25519") _ none
                    (λ _. okp_key-IfUsable jwk) (λ _. tt)

  abbrev pub AllUsable : List (String × PublicKey) → Type 0
  AllUsable = All λ k. IsUsable k.1

  usable_keys-AllUsable : (raws : List Bytes) → AllUsable (usable_keys p raws)
  unfolding usable_keys
  usable_keys-AllUsable [] = tt
  usable_keys-AllUsable (raw ∷ raws) = elim (Option-cases (p.jwk_fields raw)) [
    | inl unreadable ↦ rw (unreadable, usable_keys) (usable_keys-AllUsable raws)
    | inr (jwk, read) ↦ elim (Option-cases (key_of p jwk)) [
      | inl unusable ↦ rw (read, unusable, usable_keys) (usable_keys-AllUsable raws)
      | inr (k, good) ↦
          let usable = key_of-IfUsable jwk in
          rw (read, good, usable_keys) (rw good at usable, usable_keys-AllUsable raws)
    ]
  ]

  -- Keys are taken only from a document whose discovery names the issuer itself and an acceptable
  -- address, there is at least one of them, and every one is a usable key.
  pub fetch_keys-AllUsable :
      (url : String) (discovery : Option (String × String)) (jwks : String → Option (List Bytes))
      (keys : List (String × PublicKey))
      → fetch_keys p url discovery jwks ≡ some keys
      → (d : String × String) × (discovery ≡ some d)
        × (is_text d.0 url ≡ true)
        × (check_fetch_url p d.1 ≡ true)
        × (keys ≢ [])
        × AllUsable keys
  unfolding fetch_keys
  fetch_keys-AllUsable url none jwks keys e = cc
  fetch_keys-AllUsable url (some d) jwks keys e =
      elim (Bool-cases (not (is_text d.0 url) || not (check_fetch_url p d.1))) [
        | inl bad ↦ absurd (no_keys (rw (bad, fetch_keys) at e))
        | inr good ↦ elim (Option-cases (jwks d.1)) [
          | inl unfetched ↦ absurd (no_keys (rw (good, unfetched, fetch_keys) at e))
          | inr (raws, read) ↦ elim (List-cases (usable_keys p raws)) [
            | inl empty ↦ absurd (no_keys (rw (good, read, empty, fetch_keys) at e))
            | inr (k, ks, found) ↦
                let same = some_keys (rw (good, read, found, fetch_keys) at e) in
                let usable = usable_keys-AllUsable raws in
                (
                  d,
                  refl,
                  ground (arith, good),
                  ground (arith, good),
                  rw⁻¹ same (cons-ne-nil k ks),
                  rw⁻¹ same (rw found at usable),
                )
          ]
        ]
      ]
