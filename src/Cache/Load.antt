-- ===== src/Cache/Load.antt =====
-- A load of a device's variables, `load` of internal/api/varcache.go.
pub mod Laws
use bacnet_ip_rest_proxy.Prelude.{
  ℕ, zero, suc, Bool, true, false, List, [], ◌∷◌, ◌++◌, length, take, drop,
}
use bacnet_ip_rest_proxy.Bacnet.Value.{Value, primitive, object_id}
use bacnet_ip_rest_proxy.Cache.{
  Variable, DeviceVars, Device, Loader, Loaded, loaded, load_failed, endless, Loading, and_then,
  settled, fetched_of,
}
use bacnet_ip_rest_proxy.Cache.Metadata.{read_metadata}
use bacnet_ip_rest_proxy.Cache.ObjectList.{read_object_list}

abbrev pub rpm_chunk : ℕ
rpm_chunk = 16

-- The elements of the list that are object identifiers, as variables without metadata.
unfoldable pub variables_of : List Value → List Variable
variables_of [] = []
variables_of (primitive (object_id o) ∷ vs) =
    record { object = o; object_name = []; description = []; units = [] } ∷ variables_of vs
variables_of (v ∷ vs) = variables_of vs

-- The variables that have a name.
unfoldable pub named : List Variable → List Variable
named [] = []
named (v ∷ vs) = let rest = named vs in elim v.object_name [ [] ↦ rest | c ∷ cs ↦ v ∷ rest ]

module _ {W : Type 0} (d : Device W) where
  -- The loop over chunks of `rpmChunk` variables, on fuel.
  unfoldable pub metadata_loop : ℕ → List Variable → Loading W (List Variable)
  unfolding read_metadata and_then
  metadata_loop zero all s = (endless, s)
  metadata_loop (suc fuel) [] s = (loaded [], s)
  metadata_loop (suc fuel) (v ∷ vs) s =
      let chunk = take rpm_chunk (v ∷ vs) in
      and_then (read_metadata d (suc (length chunk)) chunk s) λ first t.
        and_then (metadata_loop fuel (drop rpm_chunk (v ∷ vs)) t)
          λ others u. (loaded (first ++ others), u)

  -- The snapshot, from the elements of the object-list.
  unfoldable pub load_variables : ℕ → List Value → Loading W DeviceVars
  unfolding metadata_loop variables_of named and_then
  load_variables number list s =
      let all = variables_of list in
      and_then (metadata_loop (suc (length all)) all s)
        λ vs t. (loaded (record { instance_number = number; vars = named vs }), t)

  -- `load`: the loader starts without the mark that the device rejects ReadPropertyMultiple.
  unfoldable pub load : W → Loaded DeviceVars × W
  unfolding fetched_of settled and_then read_object_list load_variables
  load w =
      let (r, w') = d.device_instance w in
      let start : Loader W = record { no_rpm = false; world = w' } in
      let (result, s) =
        and_then (settled (fetched_of r), start)
          λ number s. and_then (read_object_list d number s) (load_variables number) in
      (result, s.world)
