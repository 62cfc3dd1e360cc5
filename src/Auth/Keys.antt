-- ===== src/Auth/Keys.antt =====
-- The signing keys of an OpenID Connect issuer, internal/auth/oidc.go: `oidcVerifier` as a state
-- machine over the calls of key and the ends of the fetches that it starts. Times are nanoseconds.
pub mod Laws
use bacnet_ip_rest_proxy.Prelude.{
  ℕ, ◌-◌, ◌*◌, Bool, true, false, ◌||◌, List, [], ◌∷◌, Option, none, some, ltb, if◌then◌else◌,
}
use bacnet_ip_rest_proxy.Prelude.Texts.{String, is_text}

abbrev pub keys_max_age : ℕ
keys_max_age = 3600 * 1_000_000_000

abbrev pub min_refresh_interval : ℕ
min_refresh_interval = 60 * 1_000_000_000

-- `inflight` says whether a fetch runs; `last_attempt` is nothing before the first.
pub record Verifier (Key : Type 0) : Type 0 where
  pub keys : List (String × Key)
  pub fetched_at : ℕ
  pub last_attempt : Option ℕ
  pub inflight : Bool

module _ {Key : Type 0} where
  unfoldable pub new_verifier : Verifier Key
  new_verifier = record { keys = []; fetched_at = 0; last_attempt = none; inflight = false }

  -- A map made by assignments: the last key with an identifier counts.
  unfoldable pub find_key : String → List (String × Key) → Option Key
  find_key kid [] = none
  find_key kid ((k, key) ∷ keys) = elim (find_key kid keys) [
    | some other ↦ some other
    | none ↦ if is_text k kid then some key else none
  ]

  unfoldable pub too_soon : ℕ → Verifier Key → Bool
  too_soon now v = elim v.last_attempt [
    | none ↦ false
    | some t ↦ ltb (now - t) min_refresh_interval
  ]

  -- `startFetchLocked`; the channel to wait for is there if a fetch runs afterwards.
  unfoldable pub start_fetch : ℕ → Verifier Key → Verifier Key
  unfolding too_soon
  start_fetch now v =
      if v.inflight || too_soon now v
      then v
      else record v { last_attempt = some now; inflight = true }

  -- The end of a fetch: its keys, or nothing where it failed.
  unfoldable pub end_fetch : ℕ → Option (List (String × Key)) → Verifier Key → Verifier Key
  end_fetch now none v = record v { inflight = false }
  end_fetch now (some keys) v = record v { keys = keys; fetched_at = now; inflight = false }

  -- The first part of `key`: the key, if it is known, and the verifier that has perhaps started a
  -- fetch. A caller without a key then waits for the fetch that runs, and looks again.
  unfoldable pub ask_key : String → ℕ → Verifier Key → Option Key × Verifier Key
  unfolding find_key start_fetch
  ask_key kid now v = elim (find_key kid v.keys) [
    | some k ↦ (some k, if ltb keys_max_age (now - v.fetched_at) then start_fetch now v else v)
    | none ↦ (none, if v.inflight then v else start_fetch now v)
  ]
