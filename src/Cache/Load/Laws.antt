-- ===== src/Cache/Load/Laws.antt =====
-- What a load gives, `load` of internal/api/varcache.go.
use mathlib.Core.List.{Sublist, nil-sublist, map-append}
use mathlib.Core.List.Sublist
use bacnet_ip_rest_proxy.Prelude.{
  ℕ, zero, suc, ◌<◌, ◌≡◌, ◌≢◌, inl, inr, List-cases, refl, ◌∙◌, List, [], ◌∷◌, length, take, drop,
  All, arith, length-drop,
}
use bacnet_ip_rest_proxy.Bacnet.Value.{Value}
use bacnet_ip_rest_proxy.Cache.{
  Variable, DeviceVars, Device, Loader, loaded, and_then, settled, fetched_of, device_object,
}
use bacnet_ip_rest_proxy.Cache.Gives.{
  Gives, gives, gives_up, Gives-then, Gives-self, Gives-weaken, Fetched-cases,
}
use bacnet_ip_rest_proxy.Cache.Metadata.Laws.{
  objects_of, Same, objects_of-halves, read_metadata-Gives,
}
use bacnet_ip_rest_proxy.Cache.ObjectList.{read_object_list}
use bacnet_ip_rest_proxy.Cache.ObjectList.Laws.{LengthFits, read_object_list-Gives}
use bacnet_ip_rest_proxy.Cache.Load.{
  rpm_chunk, variables_of, named, metadata_loop, load_variables, load,
}

abbrev pub HasName : Variable → Type 0
HasName v = v.object_name ≢ []

named-HasName : (vs : List Variable) → All HasName (named vs)
unfolding named
named-HasName [] = tt
named-HasName (v ∷ vs) = ground (arith, named-HasName vs)

named-Sublist : (vs : List Variable) → Sublist (objects_of (named vs)) (objects_of vs)
unfolding named
named-Sublist [] = nil-sublist []
named-Sublist (v ∷ vs) = elim (List-cases v.object_name) [
  | inl unnamed ↦ rw (unnamed, named) (Sublist.cons v.object (named-Sublist vs))
  | inr (c, cs, e) ↦ rw (e, named) (Sublist.cons-cons v.object (named-Sublist vs))
]

module _ {W : Type 0} (d : Device W) where
  metadata_loop-Gives :
      (fuel : ℕ) (vs : List Variable) (s : Loader W)
      → length vs < fuel
      → Gives (Same vs) (metadata_loop d fuel vs s).0
  unfolding metadata_loop
  metadata_loop-Gives zero vs s enough = absurd (omega arith)
  metadata_loop-Gives (suc fuel) [] s enough = gives refl
  metadata_loop-Gives (suc fuel) (v ∷ vs) s enough =
      let chunk = take rpm_chunk (v ∷ vs) in
      let rest = drop rpm_chunk (v ∷ vs) in
      Gives-then _ _ (read_metadata-Gives d (suc (length chunk)) chunk s (omega arith)) λ first t e.
        Gives-then _ _
          (metadata_loop-Gives fuel rest t (omega (arith, length-drop rpm_chunk (v ∷ vs))))
          λ others u e'. gives (
            map-append _ first others ∙ ground (arith, e, e', objects_of-halves rpm_chunk (v ∷ vs)))

  -- What a snapshot is of the elements of an object-list: its variables have names, and are of
  -- objects of the list, in the list's order.
  abbrev pub IsOf : ℕ → List Value → DeviceVars → Type 0
  IsOf number list dv =
      (dv.instance_number ≡ number)
      × All HasName dv.vars
      × Sublist (objects_of dv.vars) (objects_of (variables_of list))

  load_variables-Gives :
      (number : ℕ) (list : List Value) (s : Loader W)
      → Gives (IsOf number list) (load_variables d number list s).0
  unfolding load_variables
  load_variables-Gives number list s =
      let all = variables_of list in
      Gives-then _ _ (metadata_loop-Gives (suc (length all)) all s (omega arith))
        λ vs t e. gives (refl, named-HasName vs, rw⁻¹ e (named-Sublist vs))

  -- A snapshot whose variables have names, and are of objects of an object-list that was read
  -- from the device, in the list's order.
  abbrev pub Loads : DeviceVars → Type 0
  Loads dv =
      All HasName dv.vars
      × (list : List Value) × (s : Loader W) × ((read_object_list d dv.instance_number s).0
          ≡ loaded list)
      × Sublist (objects_of dv.vars) (objects_of (variables_of list))

  read_and_load-Gives :
      (number : ℕ) (s : Loader W)
      → LengthFits d (device_object number)
      → Gives (Loads) (and_then (read_object_list d number s) (load_variables d number)).0
  read_and_load-Gives number s fits =
      Gives-then _ _ (Gives-self (read_object_list-Gives d number s fits)) λ list t e.
        Gives-weaken (load_variables-Gives number list t)
          λ dv (known, names, within). (names, list, s, rw known e, within)

  -- A load ends, where the device never says that its object-list has more than 2 ^ 32 - 51
  -- elements; and if it does not fail, every variable of the snapshot has a name, and their
  -- objects are objects of a list that was read from the device, in the list's order.
  pub load-Gives :
      (w : W) → ((number : ℕ) → LengthFits d (device_object number)) → Gives Loads (load d w).0
  unfolding load settled
  load-Gives w fits = elim (Fetched-cases (fetched_of (d.device_instance w).0)) [
    | inl (number, e) ↦ rw (e, load) (read_and_load-Gives number _ (fits number))
    | inr (x, e) ↦ rw (e, load) gives_up
  ]
