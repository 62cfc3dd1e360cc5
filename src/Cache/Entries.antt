-- ===== src/Cache/Entries.antt =====
-- The entries of the variable cache: get and refreshAll of internal/api/varcache.go. Times are
-- nanoseconds; the order of the list of entries is the one in which the map is walked.
pub mod Laws
use bacnet_ip_rest_proxy.Prelude.{
  ℕ, ◌-◌, ◌*◌, Bool, true, false, not, List, [], ◌∷◌, Option, none, some, ltb, if◌then◌else◌,
}
use bacnet_ip_rest_proxy.Prelude.Texts.{String, is_text}
use bacnet_ip_rest_proxy.Cache.{DeviceVars, Device, Loaded, loaded, load_failed, endless}
use bacnet_ip_rest_proxy.Cache.Load.{load}

-- `cacheEntry`, whose lock is held while the entry is loaded.
pub record CacheEntry : Type 0 where
  pub data_of : Option DeviceVars
  pub last_used : ℕ

abbrev pub Entries : Type 0
Entries = List (String × CacheEntry)

abbrev pub idle_refreshes : ℕ
idle_refreshes = 10

unfoldable pub find_entry : String → Entries → Option CacheEntry
find_entry host [] = none
find_entry host ((h, e) ∷ es) = if is_text h host then some e else find_entry host es

unfoldable pub put_entry : String → CacheEntry → Entries → Entries
put_entry host e [] = (host, e) ∷ []
put_entry host e ((h, f) ∷ es) =
    if is_text h host then (h, e) ∷ es else (h, f) ∷ put_entry host e es

-- The entry for a device, a new one if there is none.
unfoldable pub entry_for : String → Entries → CacheEntry
unfolding find_entry
entry_for host es = elim (find_entry host es) [
  | some e ↦ e
  | none ↦ record { data_of = none; last_used = 0 }
]

unfoldable pub store : String → CacheEntry → Loaded DeviceVars → Entries → Entries
unfolding put_entry
store host e (loaded dv) es = put_entry host (record e { data_of = some dv }) es
store host e _ es = es

-- The entries that were used lately.
unfoldable pub recent : ℕ → Entries → Entries
recent idle_before [] = []
recent idle_before ((h, e) ∷ es) =
    let rest = recent idle_before es in if ltb e.last_used idle_before then rest else (h, e) ∷ rest

-- `get`, over the client's calls on each device.
module _ {W : Type 0} (client : String → Device W) where
  unfoldable pub get : String → ℕ → Entries → W → Loaded DeviceVars × Entries × W
  unfolding entry_for put_entry store load
  get host now es w =
      let e : CacheEntry = record (entry_for host es) { last_used = now } in
      let used = put_entry host e es in
      elim e.data_of [
        | some dv ↦ (loaded dv, used, w)
        | none ↦ let (r, w') = load (client host) w in (r, store host e r used, w')
      ]

-- `refreshAll`, over those calls and the test that the cache is closed.
module _ {W : Type 0} (client : String → Device W) (closed : W → Bool) where
  -- One round of the loop of `refreshAll`: the entry, whether the loop goes on, and the world.
  -- A load that does not end stops it.
  unfoldable pub refresh_entry : String → CacheEntry → W → CacheEntry × Bool × W
  unfolding load
  refresh_entry host e w = elim e.data_of [
    | none ↦ (e, true, w)
    | some old ↦
        let (r, w') = load (client host) w in
        elim r [
          | loaded dv ↦ (record e { data_of = some dv }, true, w')
          | load_failed x ↦ (e, not (closed w'), w')
          | endless ↦ (e, false, w')
        ]
  ]

  -- The loop over the entries that are kept.
  unfoldable pub refresh_loop : Entries → W → Entries × W
  unfolding refresh_entry
  refresh_loop [] w = ([], w)
  refresh_loop ((host, e) ∷ es) w =
      let (e', go_on, w') = refresh_entry host e w in
      elim go_on [
        | true ↦ let (rest, w'') = refresh_loop es w' in ((host, e') ∷ rest, w'')
        | false ↦ ((host, e') ∷ es, w')
      ]

  unfoldable pub refresh_all : ℕ → ℕ → Entries → W → Entries × W
  unfolding recent refresh_loop
  refresh_all interval now es w = refresh_loop (recent (now - idle_refreshes * interval) es) w
