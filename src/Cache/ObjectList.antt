-- ===== src/Cache/ObjectList.antt =====
-- Reading a device's object-list, whole or piecewise: readObjectList and readIndexes of
-- internal/api/varcache.go. The counters of their loops are of 32 bits.
pub mod Laws
pub mod Whole
pub mod Endless
use bacnet_ip_rest_proxy.Prelude.{
  ℕ, zero, suc, ◌+◌, ◌-◌, ◌%◌, ◌^◌, min, Bool, true, false, not, List, [], ◌∷◌, ◌++◌, Option, none,
  some, leb,
}
use bacnet_ip_rest_proxy.Bacnet.Primitive.{ObjectIdentifier}
use bacnet_ip_rest_proxy.Bacnet.Value.{Value, Values, nil, cons, primitive, unsigned}
use bacnet_ip_rest_proxy.Bacnet.Services.Multiple.{
  PropertyReference, ReadAccessSpec, ReadAccessResult, PropertyResult, read_values, read_error,
}
use bacnet_ip_rest_proxy.Cache.{
  Device, Loader, Loaded, loaded, load_failed, endless, Loading, and_then, Fetched, fetched, fault,
  property_failure, unexpected_length, settled, read_one, read_many, retry_piecewise,
  note_rpm_failure, list_of, prop_object_list, device_object,
}

abbrev pub index_chunk : ℕ
index_chunk = 50

-- The rounds of `for i := start; i <= end; i++`, on fuel: the indexes `i`.
unfoldable pub index_loop : ℕ → ℕ → ℕ → Loaded (List ℕ)
index_loop zero i end = endless
index_loop (suc fuel) i end =
    let rest = index_loop fuel ((i + 1) % 2 ^ 32) end in
    elim (leb i end) [
      | true ↦ elim rest [
        | loaded is ↦ loaded (i ∷ is)
        | load_failed e ↦ load_failed e
        | endless ↦ endless
      ]
      | false ↦ loaded []
    ]

unfoldable pub indexes : ℕ → ℕ → Loaded (List ℕ)
unfolding index_loop
indexes start end = index_loop (suc (suc end - start)) start end

abbrev pub element_reference : ℕ → PropertyReference
element_reference i = record { property = prop_object_list; array_index = some i }

unfoldable pub element_references : List ℕ → List PropertyReference
element_references [] = []
element_references (i ∷ is) = element_reference i ∷ element_references is

-- The values of one object's results, in order, or the first error among them.
unfoldable pub collect_results : List PropertyResult → Fetched (List Value)
unfolding list_of
collect_results [] = fetched []
collect_results (pr ∷ prs) = elim pr.outcome [
  | read_error e ↦ fault (property_failure e)
  | read_values values ↦ elim (collect_results prs) [
    | fetched more ↦ fetched (list_of values ++ more)
    | fault e ↦ fault e
  ]
]

unfoldable pub collect_objects : List ReadAccessResult → Fetched (List Value)
unfolding collect_results
collect_objects [] = fetched []
collect_objects (res ∷ others) = elim (collect_results res.results) [
  | fault e ↦ fault e
  | fetched values ↦ elim (collect_objects others) [
    | fetched more ↦ fetched (values ++ more)
    | fault e ↦ fault e
  ]
]

unfoldable pub length_in : Values → Option ℕ
length_in (cons (primitive (unsigned u)) nil) = some u
length_in values = none

module _ {W : Type 0} (d : Device W) where
  -- The loop that reads one index a round.
  unfoldable pub read_each : ObjectIdentifier → List ℕ → Loading W (List Value)
  unfolding read_one and_then settled list_of
  read_each o [] s = (loaded [], s)
  read_each o (i ∷ is) s =
      let (r, s') = read_one d o prop_object_list (some i) s in
      and_then (settled r, s')
        λ values t. and_then (read_each o is t) λ more u. (loaded (list_of values ++ more), u)

  -- The elements at the indexes, by one ReadPropertyMultiple or by one ReadProperty for each.
  unfoldable pub read_listed : ObjectIdentifier → List ℕ → Loading W (List Value)
  unfolding element_references collect_objects read_each read_many note_rpm_failure settled
  read_listed o is s = elim s.no_rpm [
    | true ↦ read_each o is s
    | false ↦
        let spec : ReadAccessSpec = record { object = o; properties = element_references is } in
        let (r, t) = read_many d (spec ∷ []) s in
        elim r [
          | fetched results ↦ (settled (collect_objects results), t)
          | fault e ↦
              let (retry, u) = note_rpm_failure d e t in
              elim retry [ true ↦ read_each o is u | false ↦ (load_failed e, u) ]
        ]
  ]

  -- `readIndexes`
  unfoldable pub read_indexes : ObjectIdentifier → ℕ → ℕ → Loading W (List Value)
  unfolding indexes read_listed and_then
  read_indexes o start end s = and_then (indexes start end, s) (read_listed o)

  -- `for start := uint32(1); start <= n; start += indexChunk`, on fuel.
  unfoldable pub batches : ObjectIdentifier → ℕ → ℕ → ℕ → Loading W (List Value)
  unfolding read_indexes and_then
  batches o zero start n s = (endless, s)
  batches o (suc fuel) start n s = elim (leb start n) [
    | false ↦ (loaded [], s)
    | true ↦
        and_then (read_indexes o start (min ((start + index_chunk - 1) % 2 ^ 32) n) s) λ values t.
          and_then (batches o fuel ((start + index_chunk) % 2 ^ 32) n t)
            λ more u. (loaded (values ++ more), u)
  ]

  -- The elements of the list, from the reply about its length.
  unfoldable pub read_elements : ObjectIdentifier → Values → Loading W (List Value)
  unfolding length_in batches
  read_elements o values s = elim (length_in values) [
    | some u ↦ let n = u % 2 ^ 32 in batches o (suc n) 1 n s
    | none ↦ (load_failed unexpected_length, s)
  ]

  -- `loader.readObjectList`
  unfoldable pub read_object_list : ℕ → Loading W (List Value)
  unfolding read_one retry_piecewise read_elements settled and_then list_of device_object
  read_object_list number s =
      let o = device_object number in
      let (whole, s') = read_one d o prop_object_list none s in
      elim whole [
        | fetched values ↦ (loaded (list_of values), s')
        | fault e ↦ elim (retry_piecewise d e s') [
          | false ↦ (load_failed e, s')
          | true ↦
              let (r, t) = read_one d o prop_object_list (some 0) s' in
              and_then (settled r, t) (read_elements o)
        ]
      ]
