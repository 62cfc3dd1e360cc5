-- ===== src/Cache/Metadata/Laws.antt =====
-- Reading metadata, readMetadata of internal/api/varcache.go, keeps the variables.
use bacnet_ip_rest_proxy.Prelude.{
  ℕ, zero, suc, ◌<◌, ◌≡◌, refl, ap, ◌∙◌, List, [], ◌∷◌, ◌++◌, map, Bool, take, drop, length, arith,
  Bool-cases, inl, inr, none, ◌/◌, ltb, not, ◌&&◌, ltb→lt, length-take_le, length-drop,
}
use mathlib.Core.List.{map-append}
use bacnet_ip_rest_proxy.Bacnet.Primitive.{ObjectIdentifier}
use bacnet_ip_rest_proxy.Bacnet.Services.Multiple.{PropertyResult, ReadAccessResult}
use bacnet_ip_rest_proxy.Cache.{
  Variable, Device, prop_object_name, Loader, loaded, load_failed, Loading, read_one, read_many,
  note_rpm_failure,
}
use bacnet_ip_rest_proxy.Cache.Gives.{Gives, gives, gives_up, Gives-then, Gives-if, Fetched-cases}
use bacnet_ip_rest_proxy.Cache.Metadata.{
  set_property, set_properties, update_last, fill_results, read_name, read_names, after_failure,
  read_metadata, metadata_spec,
}

abbrev pub objects_of : List Variable → List ObjectIdentifier
objects_of = map (λ v. v.object)

set_property-object : (pr : PropertyResult) (v : Variable) → (set_property pr v).object ≡ v.object
unfolding set_property
set_property-object pr v = ground arith

set_properties-object :
    (prs : List PropertyResult) (v : Variable) → (set_properties prs v).object ≡ v.object
unfolding set_properties
set_properties-object [] v = refl
set_properties-object (pr ∷ prs) v =
    set_properties-object prs (set_property pr v) ∙ set_property-object pr v

update_last-objects_of :
    (o : ObjectIdentifier) (f : Variable → Variable)
    → ((v : Variable) → (f v).object ≡ v.object)
    → (vs : List Variable) → objects_of (update_last o f vs) ≡ objects_of vs
unfolding update_last
update_last-objects_of o f h [] = refl
update_last-objects_of o f h (v ∷ vs) = ground (arith, h v, update_last-objects_of o f h vs)

fill_results-objects_of :
    (results : List ReadAccessResult) (vs : List Variable)
    → objects_of (fill_results results vs) ≡ objects_of vs
unfolding fill_results
fill_results-objects_of [] vs = refl
fill_results-objects_of (res ∷ others) vs =
    fill_results-objects_of others _
    ∙ update_last-objects_of res.object (set_properties res.results)
        (set_properties-object res.results) vs

abbrev pub Same : List Variable → List Variable → Type 0
Same vs ws = objects_of ws ≡ objects_of vs

pub objects_of-halves :
    (n : ℕ) (vs : List Variable) → objects_of (take n vs) ++ objects_of (drop n vs) ≡ objects_of vs
objects_of-halves zero vs = refl
objects_of-halves (suc n) [] = refl
objects_of-halves (suc n) (v ∷ vs) = ap (λ t. v.object ∷ t) (objects_of-halves n vs)

module _ {W : Type 0} (d : Device W) where
  read_name-Gives :
      (v : Variable) (s : Loader W) → Gives (λ w. w.object ≡ v.object) (read_name d v s).0
  unfolding read_name
  read_name-Gives v s = elim (Fetched-cases (read_one d v.object prop_object_name none s).0) [
    | inl (values, e) ↦ rw (e, read_name) (gives refl)
    | inr (x, e) ↦
        rw (e, read_name)
          (Gives-if (d.ended (read_one d v.object prop_object_name none s).1.world)
            {x = load_failed x} {y = loaded v} (λ _. gives_up) (λ _. gives refl))
  ]

  read_names-Gives : (vs : List Variable) (s : Loader W) → Gives (Same vs) (read_names d vs s).0
  unfolding read_names
  read_names-Gives [] s = gives refl
  read_names-Gives (v ∷ vs) s = Gives-then _ _ (read_name-Gives v s) λ v' s' hv.
      Gives-then _ _ (read_names-Gives vs s') λ vs' s'' hvs. gives (ground (arith, hv, hvs))

  after_failure-Gives :
      (smaller : List Variable → Loading W (List Variable)) (fuel : ℕ)
      → ((vs : List Variable) (s : Loader W) → length vs < fuel → Gives (Same vs) (smaller vs s).0)
      → (retry : Bool) (vs : List Variable) (s : Loader W) → length vs < suc fuel
      → Gives (Same vs) (after_failure d smaller retry vs s).0
  unfolding after_failure
  after_failure-Gives smaller fuel h retry vs s enough =
      elim (Bool-cases (retry && not s.no_rpm && ltb 1 (length vs))) [
        | inl split ↦
            let long = ltb→lt 1 (length vs) (ground (arith, split)) in
            let n = length vs / 2 in
            rw (split, after_failure)
              (Gives-then _ _
                (h (take n vs) s (omega (arith, long, length-take_le n vs (omega arith))))
                λ first s' e.
                  Gives-then _ _ (h (drop n vs) s' (omega (arith, long, length-drop n vs)))
                    λ second s'' e'.
                      gives
                        (map-append _ first second ∙ ground (arith, e, e', objects_of-halves n vs)))
        | inr one ↦ rw (one, after_failure) (read_names-Gives vs s)
      ]

  -- Reading the metadata of a chunk, with fuel above its length, ends, and if it does not fail, it
  -- gives the variables of the chunk in their order, with other metadata at most.
  pub read_metadata-Gives :
      (fuel : ℕ) (vs : List Variable) (s : Loader W)
      → length vs < fuel
      → Gives (Same vs) (read_metadata d fuel vs s).0
  unfolding read_metadata
  read_metadata-Gives zero vs s enough = absurd (omega arith)
  read_metadata-Gives (suc fuel) vs s enough = elim (Bool-cases s.no_rpm) [
    | inl single ↦ rw (single, read_metadata) (read_names-Gives vs s)
    | inr multiple ↦ elim (Fetched-cases (read_many d (map metadata_spec vs) s).0) [
      | inl (results, e) ↦
          rw (multiple, e, read_metadata) (gives (fill_results-objects_of results vs))
      | inr (x, e) ↦ elim (Bool-cases (d.ended (read_many d (map metadata_spec vs) s).1.world)) [
        | inl over ↦ rw (multiple, e, over, read_metadata) gives_up
        | inr running ↦
            let noted = note_rpm_failure d x (read_many d (map metadata_spec vs) s).1 in
            rw (multiple, e, running, read_metadata)
              (after_failure-Gives (read_metadata d fuel) fuel
                (λ ws t more. read_metadata-Gives fuel ws t more) noted.0 vs noted.1 enough)
      ]
    ]
  ]
