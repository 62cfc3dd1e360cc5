-- ===== src/Auth/Keys/Laws.antt =====
-- How often an issuer is asked for its keys, internal/auth/oidc.go.
use bacnet_ip_rest_proxy.Prelude.{
  ℕ, ◌+◌, ◌-◌, ◌≤◌, ◌≡◌, ◌⊎◌, refl, inl, inr, Bool, true, false, not, ◌&&◌, ◌||◌, List, [], ◌∷◌,
  Option, none, some, ltb, if◌then◌else◌, Option-cases, arith,
}
use bacnet_ip_rest_proxy.Prelude.Texts.{String}
use bacnet_ip_rest_proxy.Auth.Keys.{
  Verifier, min_refresh_interval, keys_max_age, new_verifier, find_key, too_soon, start_fetch,
  end_fetch, ask_key,
}

-- Times, the latest first, each at least the interval after the one before it.
abbrev pub Spaced : List ℕ → Type 0
Spaced [] = Unit {0}
Spaced (t ∷ []) = Unit {0}
Spaced (t ∷ u ∷ ts) = (u + min_refresh_interval ≤ t) × Spaced (u ∷ ts)

abbrev pub latest : List ℕ → Option ℕ
latest [] = none
latest (t ∷ ts) = some t

and_not : (b : Bool) → b && not b ≡ false
and_not true = refl
and_not false = refl

Spaced-cons :
    (now : ℕ) (ts : List ℕ) (last : Option ℕ)
    → Spaced ts × (last ≡ latest ts)
    → ((t : ℕ) → last ≡ some t → t + min_refresh_interval ≤ now)
    → Spaced (now ∷ ts)
Spaced-cons now [] last h apart = tt
Spaced-cons now (t ∷ ts) last (h, e) apart = (apart t e, h)

module _ {Key : Type 0} where
  -- The log of the times at which fetches start, when one may have started at `now`.
  abbrev pub logged : ℕ → Verifier Key → Verifier Key → List ℕ → List ℕ
  logged now v v' ts = if v'.inflight && not v.inflight then now ∷ ts else ts

  -- The verifiers that calls of key and ends of the running fetch reach, with the log.
  pub data Run : List ℕ → Verifier Key → Type 0 where
    begins : Run [] new_verifier
    asks :
        {ts : List ℕ} {v : Verifier Key} (kid : String) (now : ℕ)
        → Run ts v
        → Run (logged now v (ask_key kid now v).1 ts) (ask_key kid now v).1
    ends :
        {ts : List ℕ} {v : Verifier Key} (now : ℕ) (keys : Option (List (String × Key)))
        → Run ts v
        → v.inflight ≡ true
        → Run ts (end_fetch now keys v)

  -- What a call does to the verifier: nothing, or it starts a fetch.
  Starts : ℕ → Verifier Key → Verifier Key → Type 0
  Starts now v v' =
      (v' ≡ v)
      ⊎ ((v.inflight ≡ false)
          × (v'.inflight ≡ true)
          × (v'.last_attempt ≡ some now)
          × ((t : ℕ) → v.last_attempt ≡ some t → t + min_refresh_interval ≤ now))

  too_soon-false :
      (now t : ℕ) (v : Verifier Key)
      → too_soon now v ≡ false
      → v.last_attempt ≡ some t
      → t + min_refresh_interval ≤ now
  unfolding too_soon
  too_soon-false now t v late last = ground (arith, late, last)

  Starts-if :
      (b : Bool) (now : ℕ) (v w w' : Verifier Key)
      → (b ≡ true → Starts now v w)
      → (b ≡ false → Starts now v w')
      → Starts now v (if b then w else w')
  Starts-if true now v w w' h h' = h refl
  Starts-if false now v w w' h h' = h' refl

  start_fetch-Starts : (now : ℕ) (v : Verifier Key) → Starts now v (start_fetch now v)
  unfolding start_fetch Starts
  start_fetch-Starts now v =
      Starts-if (v.inflight || too_soon now v) now v v
        (record v { last_attempt = some now; inflight = true }) (λ _. inl refl)
        λ free. inr (
          ground (arith, free),
          refl,
          refl,
          λ t last. too_soon-false now t v (ground (arith, free)) last,
        )

  ask_key-Starts : (kid : String) (now : ℕ) (v : Verifier Key) → Starts now v (ask_key kid now v).1
  unfolding ask_key Starts
  ask_key-Starts kid now v = elim (Option-cases (find_key kid v.keys)) [
    | inl unknown ↦
        rw (unknown, ask_key)
          (Starts-if v.inflight now v v (start_fetch now v) (λ _. inl refl)
            (λ _. start_fetch-Starts now v))
    | inr (k, known) ↦
        rw (known, ask_key)
          (Starts-if (ltb keys_max_age (now - v.fetched_at)) now v (start_fetch now v) v
            (λ _. start_fetch-Starts now v) (λ _. inl refl))
  ]

  logged-Spaced :
      (now : ℕ) (ts : List ℕ) (v v' : Verifier Key)
      → Spaced ts × (v.last_attempt ≡ latest ts)
      → Starts now v v'
      → Spaced (logged now v v' ts) × (v'.last_attempt ≡ latest (logged now v v' ts))
  unfolding Starts
  logged-Spaced now ts v v' h (inl same) = rw (same, and_not v.inflight) h
  logged-Spaced now ts v v' h (inr (idle, busy, last, apart)) =
      rw (idle, busy) (Spaced-cons now ts v.last_attempt h apart, last)

  -- Along any run, whatever keys the callers ask for and whenever, the fetches of an issuer's keys
  -- start at least the minimum refresh interval apart.
  pub Run-Spaced :
      {ts : List ℕ} {v : Verifier Key} → Run ts v → Spaced ts × (v.last_attempt ≡ latest ts)
  unfolding new_verifier end_fetch
  Run-Spaced begins = (tt, refl)
  Run-Spaced (ends now none r busy) = Run-Spaced r
  Run-Spaced (ends now (some keys) r busy) = Run-Spaced r
  Run-Spaced (asks {ts} {v} kid now r) =
      logged-Spaced now ts v (ask_key kid now v).1 (Run-Spaced r) (ask_key-Starts kid now v)
