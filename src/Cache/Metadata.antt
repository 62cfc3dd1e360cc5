-- ===== src/Cache/Metadata.antt =====
-- Reading the names, descriptions and units of a chunk of variables: readMetadata and
-- readMetadataRPM of internal/api/varcache.go.
pub mod Laws
use bacnet_ip_rest_proxy.Prelude.{
  ℕ, zero, suc, ◌/◌, Bool, true, false, not, ◌&&◌, List, [], ◌∷◌, ◌++◌, map, Option, none, some,
  ltb, ◌==◌, if◌then◌else◌, length, take, drop,
}
use bacnet_ip_rest_proxy.Bacnet.Primitive.{ObjectIdentifier}
use bacnet_ip_rest_proxy.Bacnet.Services.Multiple.{
  PropertyReference, ReadAccessSpec, ReadAccessResult, PropertyResult, read_values, read_error,
}
use bacnet_ip_rest_proxy.Cache.{
  Variable, Device, Loader, Loaded, loaded, load_failed, endless, Loading, and_then, fetched, fault,
  read_one, read_many, note_rpm_failure, list_of, char_string, same_object, prop_object_name,
  prop_description, prop_units,
}

abbrev whole : ℕ → PropertyReference
whole prop = record { property = prop; array_index = none }

unfoldable pub metadata_spec : Variable → ReadAccessSpec
metadata_spec v = record {
  object = v.object;
  properties = whole prop_object_name ∷ whole prop_description ∷ whole prop_units ∷ [];
}

-- One property of a result, put into the variable.
unfoldable pub set_property : PropertyResult → Variable → Variable
unfolding char_string list_of
set_property pr v = elim pr.outcome [
  | read_error e ↦ v
  | read_values values ↦
      if pr.reference.property == prop_object_name
      then record v { object_name = char_string values }
      else if pr.reference.property == prop_description
      then record v { description = char_string values }
      else if pr.reference.property == prop_units
      then record v { units = list_of values }
      else v
]

unfoldable pub set_properties : List PropertyResult → Variable → Variable
unfolding set_property
set_properties [] v = v
set_properties (pr ∷ prs) v = set_properties prs (set_property pr v)

unfoldable pub has_object : ObjectIdentifier → List Variable → Bool
unfolding same_object
has_object o [] = false
has_object o (v ∷ vs) = let rest = has_object o vs in if same_object v.object o then true else rest

-- A change through `byID[o]`, the pointer to the last variable with the object.
unfoldable pub update_last :
    ObjectIdentifier → (Variable → Variable) → List Variable → List Variable
unfolding has_object same_object
update_last o f [] = []
update_last o f (v ∷ vs) =
    let rest = update_last o f vs in
    if has_object o vs then v ∷ rest else if same_object v.object o then f v ∷ vs else v ∷ vs

unfoldable pub fill_results : List ReadAccessResult → List Variable → List Variable
unfolding update_last set_properties
fill_results [] chunk = chunk
fill_results (res ∷ others) chunk =
    fill_results others (update_last res.object (set_properties res.results) chunk)

module _ {W : Type 0} (d : Device W) where
  -- One round of the loop over single names.
  unfoldable pub read_name : Variable → Loading W Variable
  unfolding read_one char_string
  read_name v s =
      let (r, s') = read_one d v.object prop_object_name none s in
      elim r [
        | fetched values ↦ (loaded (record v { object_name = char_string values }), s')
        | fault e ↦ (if d.ended s'.world then load_failed e else loaded v, s')
      ]

  unfoldable pub read_names : List Variable → Loading W (List Variable)
  unfolding read_name and_then
  read_names [] s = (loaded [], s)
  read_names (v ∷ vs) s =
      and_then (read_name v s)
        λ v' s'. and_then (read_names vs s') λ vs' s''. (loaded (v' ∷ vs'), s'')

  -- What follows a failed read of the whole chunk: halves, or names one by one.
  unfoldable pub after_failure :
      (List Variable → Loading W (List Variable)) → Bool → List Variable → Loading W (List Variable)
  unfolding read_names and_then
  after_failure smaller retry chunk s = elim (retry && not s.no_rpm && ltb 1 (length chunk)) [
    | true ↦ and_then (smaller (take (length chunk / 2) chunk) s) λ first s'.
        and_then (smaller (drop (length chunk / 2) chunk) s')
          λ second s''. (loaded (first ++ second), s'')
    | false ↦ read_names chunk s
  ]

  -- `readMetadata`, on fuel.
  unfoldable pub read_metadata : ℕ → List Variable → Loading W (List Variable)
  unfolding read_many fill_results metadata_spec note_rpm_failure after_failure read_names
  read_metadata zero chunk s = (endless, s)
  read_metadata (suc fuel) chunk s = elim s.no_rpm [
    | true ↦ read_names chunk s
    | false ↦
        let (r, s') = read_many d (map metadata_spec chunk) s in
        elim r [
          | fetched results ↦ (loaded (fill_results results chunk), s')
          | fault e ↦ elim (d.ended s'.world) [
            | true ↦ (load_failed e, s')
            | false ↦
                let (retry, s'') = note_rpm_failure d e s' in
                after_failure (read_metadata fuel) retry chunk s''
          ]
        ]
  ]
