-- ===== src/Cache/Entries/Laws.antt =====
-- What the variable cache serves, get and refreshAll of internal/api/varcache.go.
use mathlib.Core.Path.{subst}
use text.Mathlib.TextEquality.{eq_iff}
use bacnet_ip_rest_proxy.Prelude.{
  ℕ, ◌-◌, ◌*◌, ◌≤◌, ◌≡◌, ◌⊎◌, refl, ap, ◌∙◌, inl, inr, Bool, [], ◌∷◌, some, arith, Bool-cases,
  Option-cases,
}
use bacnet_ip_rest_proxy.Prelude.Texts.{String, is_text}
use bacnet_ip_rest_proxy.Cache.{DeviceVars, Device, Failure, Loaded, loaded, load_failed, endless}
use bacnet_ip_rest_proxy.Cache.Gives.{Loaded-cases}
use bacnet_ip_rest_proxy.Cache.Load.{load}
use bacnet_ip_rest_proxy.Cache.Entries.{
  CacheEntry, Entries, idle_refreshes, find_entry, put_entry, entry_for, store, recent, get,
  refresh_entry, refresh_loop, refresh_all,
}

find_entry-put_entry :
    (host : String) (e : CacheEntry) (es : Entries) → find_entry host (put_entry host e es) ≡ some e
unfolding find_entry put_entry
find_entry-put_entry host e [] = ground (arith, eq_iff host host)
find_entry-put_entry host e ((h, f) ∷ es) =
    ground (arith, eq_iff h host, find_entry-put_entry host e es)

find_entry-recent :
    (limit : ℕ) (host : String) (e : CacheEntry) (es : Entries)
    → find_entry host es ≡ some e
    → limit ≤ e.last_used
    → find_entry host (recent limit es) ≡ some e
unfolding find_entry recent
find_entry-recent limit host e [] h used = cc
find_entry-recent limit host e ((k, f) ∷ es) h used =
    ground (arith, find_entry-recent limit host e es)

entry_for-found :
    (host : String) (e : CacheEntry) (es : Entries)
    → find_entry host es ≡ some e
    → entry_for host es ≡ e
unfolding entry_for
entry_for-found host e es h = rw (h, entry_for) refl

module _ {W : Type 0} (client : String → Device W) (closed : W → Bool) where
  -- The snapshot was there before, or was loaded from the device.
  abbrev pub Fresh : String → DeviceVars → DeviceVars → Type 0
  Fresh host old dv = (dv ≡ old) ⊎ ((w : W) × ((load (client host) w).0 ≡ loaded dv))

  -- An entry with a snapshot, the same or a loaded one.
  abbrev Serves : String → DeviceVars → CacheEntry → Type 0
  Serves host old f = (dv : DeviceVars) × (f.data_of ≡ some dv) × Fresh host old dv

  refresh_entry-Serves :
      (host : String) (e : CacheEntry) (old : DeviceVars) (w : W)
      → e.data_of ≡ some old
      → Serves host old (refresh_entry client closed host e w).0
  unfolding refresh_entry
  refresh_entry-Serves host e old w has = elim (Loaded-cases (load (client host) w).0) [
    | inl (dv, l) ↦ rw (has, l, refresh_entry) (dv, refl, inr (w, l))
    | inr (inl (x, l)) ↦ rw (has, l, refresh_entry) (old, has, inl refl)
    | inr (inr l) ↦ rw (has, l, refresh_entry) (old, has, inl refl)
  ]

  refresh_loop-Serves :
      (host : String) (e : CacheEntry) (old : DeviceVars) (es : Entries) (w : W)
      → find_entry host es ≡ some e
      → e.data_of ≡ some old
      → (f : CacheEntry) × (find_entry host (refresh_loop client closed es w).0 ≡ some f)
        × Serves host old f
  unfolding refresh_loop find_entry
  refresh_loop-Serves host e old [] w h has = cc
  refresh_loop-Serves host e old ((k, f) ∷ es) w h has =
      let r = refresh_entry client closed k f w in
      elim (Bool-cases (is_text k host)) [
        | inl same ↦
            let key : k ≡ host = (eq_iff k host).0 same in
            let held : f.data_of ≡ some old = ground (arith, h, same, has) in
            let serves : Serves host old r.0 =
              subst (λ x. Serves x old r.0) key (refresh_entry-Serves k f old w held) in
            elim (Bool-cases r.1) [
              | inl on ↦ rw (on, refresh_loop, same) (r.0, refl, serves)
              | inr stop ↦ rw (stop, refresh_loop, same) (r.0, refl, serves)
            ]
        | inr other ↦
            let later : find_entry host es ≡ some e = ground (arith, h, other) in
            elim (Bool-cases r.1) [
              | inl on ↦
                  rw (on, refresh_loop, other) (refresh_loop-Serves host e old es r.2 later has)
              | inr stop ↦ rw (stop, refresh_loop, other) (e, later, (old, has, inl refl))
            ]
      ]

get-found :
    {W : Type 0} (client : String → Device W) (host : String) (now : ℕ) (e : CacheEntry)
    (dv : DeviceVars) (es : Entries) (w : W)
    → find_entry host es ≡ some e
    → e.data_of ≡ some dv
    → (es' : Entries) × (get client host now es w ≡ (loaded dv, es', w))
unfolding get
get-found client host now e dv es w h has = rw (entry_for-found host e es h, has, get) (_, refl)

-- After a refresh, a device that had a snapshot and was used within the last ten intervals is
-- served without a call to the device: with the snapshot that it had, or with another one that a
-- load of the device gave.
pub refresh_all-get :
    {W : Type 0} (client : String → Device W) (closed : W → Bool) (interval now later : ℕ)
    (host : String) (e : CacheEntry) (old : DeviceVars) (es : Entries) (w w' : W)
    → find_entry host es ≡ some e
    → e.data_of ≡ some old
    → now - idle_refreshes * interval ≤ e.last_used
    → (dv : DeviceVars) × (es' : Entries) × (get client host later
          (refresh_all client closed interval now es w).0
          w'
        ≡ (loaded dv, es', w'))
      × Fresh client closed host old dv
unfolding refresh_all
refresh_all-get client closed interval now later host e old es w w' h has used =
    let limit = now - idle_refreshes * interval in
    let (f, found, (dv, held, fresh)) =
      refresh_loop-Serves client closed host e old (recent limit es) w
        (find_entry-recent limit host e es h used) has in
    let (es', served) = get-found client host later f dv _ w' found held in (dv, es', served, fresh)

given : {a b : DeviceVars} → ◌≡◌ {A = Loaded DeviceVars} (loaded a) (loaded b) → some a ≡ some b
given h = cc

not_given :
    {x : Failure} {a : DeviceVars} → ◌≡◌ {A = Loaded DeviceVars} (load_failed x) (loaded a) → ⊥
not_given h = cc

hangs : {a : DeviceVars} → ◌≡◌ {A = Loaded DeviceVars} endless (loaded a) → ⊥
hangs h = cc

-- What `get` leaves in the entry of a device whose snapshot it gives.
get-find_entry :
    {W : Type 0} (client : String → Device W) (now : ℕ) (host : String) (dv : DeviceVars)
    (es : Entries) (w : W)
    → (get client host now es w).0 ≡ loaded dv
    → (e : CacheEntry) × (find_entry host (get client host now es w).1 ≡ some e)
      × (e.data_of ≡ some dv)
unfolding get store
get-find_entry client now host dv es w h = elim (Option-cases (entry_for host es).data_of) [
  | inr (old, e) ↦ rw (e, get) (_, find_entry-put_entry host _ es, e ∙ given (rw (e, get) at h))
  | inl absent ↦ elim (Loaded-cases (load (client host) w).0) [
    | inl (new, l) ↦
        rw (absent, l, get, store)
          (_, find_entry-put_entry host _ _, given (rw (absent, l, get) at h))
    | inr (inl (x, l)) ↦ absurd (not_given (rw (absent, l, get) at h))
    | inr (inr l) ↦ absurd (hangs (rw (absent, l, get) at h))
  ]
]

-- Once a load has given a device's snapshot, the cache serves it without a call to the device.
pub get-get :
    {W : Type 0} (client : String → Device W) (now later : ℕ) (host : String) (dv : DeviceVars)
    (es es' : Entries) (w w' w'' : W)
    → get client host now es w ≡ (loaded dv, es', w')
    → (es'' : Entries) × (get client host later es' w'' ≡ (loaded dv, es'', w''))
unfolding get
get-get client now later host dv es es' w w' w'' h =
    let (e, found, held) = get-find_entry client now host dv es w (ap (λ r. r.0) h) in
    let kept : find_entry host es' ≡ some e = rw⁻¹ (ap (λ r. r.1) h) found in
    get-found client host later e dv es' w'' kept held
