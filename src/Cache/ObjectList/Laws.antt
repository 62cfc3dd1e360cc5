-- ===== src/Cache/ObjectList/Laws.antt =====
-- When the loops of readObjectList and readIndexes end, internal/api/varcache.go.
use bacnet_ip_rest_proxy.Prelude.{
  ℕ, zero, suc, ◌+◌, ◌-◌, ◌≤◌, ◌<◌, ◌%◌, ◌^◌, min, ◌≡◌, refl, ap, inl, inr, Option-cases, List, [],
  ◌∷◌, none, some, leb, le→leb, lt→leb_false, leb→le, Bool-cases, arith,
}
use bacnet_ip_rest_proxy.Bacnet.Primitive.{ObjectIdentifier}
use bacnet_ip_rest_proxy.Bacnet.Value.{Values}
use bacnet_ip_rest_proxy.Bacnet.Services.Multiple.{ReadAccessSpec}
use bacnet_ip_rest_proxy.Cache.{
  Device, Loader, loaded, and_then, Fetched, fetched, fault, settled, fetched_of, read_one,
  read_many, retry_piecewise, note_rpm_failure, prop_object_list, device_object,
}
use bacnet_ip_rest_proxy.Client.Calls.{CallResult, returned, refused, undecodable, failed}
use bacnet_ip_rest_proxy.Cache.Gives.{Gives, gives, gives_up, Gives-then, Fetched-cases}
use bacnet_ip_rest_proxy.Cache.ObjectList.{
  index_chunk, index_loop, indexes, element_references, collect_objects, read_each, read_listed,
  read_indexes, batches, length_in, read_elements, read_object_list,
}

abbrev pub range : ℕ → ℕ → List ℕ
range start zero = []
range start (suc n) = start ∷ range (start + 1) n

pub index_loop-range :
    (n fuel start end : ℕ)
    → n < fuel
    → start + n ≡ suc end
    → suc end < 2 ^ 32
    → index_loop fuel start end ≡ loaded (range start n)
unfolding index_loop
index_loop-range n zero start end enough e small = absurd (omega arith)
index_loop-range zero (suc fuel) start end enough e small =
    rw (lt→leb_false start end (omega arith), index_loop) refl
index_loop-range (suc n) (suc fuel) start end enough e small =
    let next : (start + 1) % 2 ^ 32 ≡ start + 1 = omega arith in
    rw
      (
        le→leb start end (omega arith),
        next,
        index_loop-range n fuel (start + 1) end (omega arith) (omega arith) small,
        index_loop,
      )
      refl

pub indexes-range :
    (start n end : ℕ)
    → start + n ≡ suc end
    → suc end < 2 ^ 32
    → indexes start end ≡ loaded (range start n)
unfolding indexes
indexes-range start n end e small =
    index_loop-range n (suc (suc end - start)) start end (omega arith) e small

abbrev Any : {A : Type 0} → A → Type 0
Any a = Unit {0}

settled-Gives : {A : Type 0} (r : Fetched A) → Gives Any (settled r)
unfolding settled
settled-Gives (fetched a) = gives tt
settled-Gives (fault e) = gives_up

module _ {W : Type 0} (d : Device W) (o : ObjectIdentifier) where
  read_each-Gives : (is : List ℕ) (s : Loader W) → Gives Any (read_each d o is s).0
  unfolding read_each
  read_each-Gives [] s = gives tt
  read_each-Gives (i ∷ is) s =
      Gives-then _ _ (settled-Gives (read_one d o prop_object_list (some i) s).0)
        λ values t _. Gives-then _ _ (read_each-Gives is t) λ more u _. gives tt

  abbrev pub asked : List ℕ → List ReadAccessSpec
  asked is = record { object = o; properties = element_references is } ∷ []

  read_listed-Gives : (is : List ℕ) (s : Loader W) → Gives Any (read_listed d o is s).0
  unfolding read_listed
  read_listed-Gives is s = elim (Bool-cases s.no_rpm) [
    | inl single ↦ rw (single, read_listed) (read_each-Gives is s)
    | inr multiple ↦ elim (Fetched-cases (read_many d (asked is) s).0) [
      | inl (results, f) ↦ rw (multiple, f, read_listed) (settled-Gives (collect_objects results))
      | inr (x, f) ↦
          let noted = note_rpm_failure d x (read_many d (asked is) s).1 in
          elim (Bool-cases noted.0) [
            | inl again ↦ rw (multiple, f, again, read_listed) (read_each-Gives is noted.1)
            | inr given_up ↦ rw (multiple, f, given_up, read_listed) gives_up
          ]
    ]
  ]

  read_indexes-Gives :
      (start n end : ℕ) (s : Loader W)
      → start + n ≡ suc end
      → suc end < 2 ^ 32
      → Gives Any (read_indexes d o start end s).0
  unfolding read_indexes and_then
  read_indexes-Gives start n end s e small =
      rw (indexes-range start n end e small, read_indexes) (read_listed-Gives (range start n) s)

  batches-Gives :
      (fuel start n : ℕ) (s : Loader W)
      → suc n < start + fuel
      → 1 ≤ fuel
      → start < 2 ^ 32
      → n + index_chunk < 2 ^ 32
      → Gives Any (batches d o fuel start n s).0
  unfolding batches
  batches-Gives zero start n s enough one low small = absurd (omega arith)
  batches-Gives (suc fuel) start n s enough one low small = elim (Bool-cases (leb start n)) [
    | inr over ↦ rw (over, batches) (gives tt)
    | inl more ↦
        let h = leb→le start n more in
        let end = min ((start + index_chunk - 1) % 2 ^ 32) n in
        let next : (start + index_chunk) % 2 ^ 32 ≡ start + index_chunk = omega (arith, h) in
        rw (more, next, batches)
          (Gives-then _ _
            (read_indexes-Gives start (suc end - start) end s (omega (arith, h)) (omega (arith, h)))
            λ values t _.
              Gives-then _ _
                (batches-Gives fuel (start + index_chunk) n t (omega (arith, h)) (omega (arith, h))
                  (omega (arith, h)) small)
                λ rest u _. gives tt)
  ]

  read_elements-Gives :
      (values : Values) (s : Loader W)
      → ((u : ℕ) → length_in values ≡ some u → u % 2 ^ 32 + index_chunk < 2 ^ 32)
      → Gives Any (read_elements d o values s).0
  unfolding read_elements
  read_elements-Gives values s fits = elim (Option-cases (length_in values)) [
    | inl absent ↦ rw (absent, read_elements) gives_up
    | inr (u, present) ↦
        let n = u % 2 ^ 32 in
        rw (present, read_elements)
          (batches-Gives (suc n) 1 n s (omega arith) (omega arith) (omega arith) (fits u present))
  ]

-- Every reply of the device about the length of its object-list is of a list that the 32-bit
-- counters can walk through.
abbrev pub LengthFits : {W : Type 0} → Device W → ObjectIdentifier → Type 0
LengthFits {W} d o =
    (w : W) (values : Values) (u : ℕ)
    → (d.read_property o prop_object_list (some 0) w).0 ≡ returned values
    → length_in values ≡ some u
    → u % 2 ^ 32 + index_chunk < 2 ^ 32

fetched_eq : {A : Type 0} {a b : A} → ◌≡◌ {A = Fetched A} (fetched a) (fetched b) → a ≡ b
fetched_eq h = cc

fetched_of-eq : {A : Type 0} (r : CallResult A) (a : A) → fetched_of r ≡ fetched a → r ≡ returned a
unfolding fetched_of
fetched_of-eq (returned b) a h = ap returned (fetched_eq h)
fetched_of-eq (refused e) a h = cc
fetched_of-eq (undecodable e) a h = cc
fetched_of-eq (failed e) a h = cc

-- Reading the object-list, whole or piecewise, ends, where the device never says that the list
-- has more than 2 ^ 32 - 51 elements.
pub read_object_list-Gives :
    {W : Type 0} (d : Device W) (number : ℕ) (s : Loader W)
    → LengthFits d (device_object number)
    → Gives Any (read_object_list d number s).0
unfolding read_object_list read_one
read_object_list-Gives d number s fits =
    let o = device_object number in
    let first = read_one d o prop_object_list none s in
    elim (Fetched-cases first.0) [
      | inl (values, e) ↦ rw (e, read_object_list) (gives tt)
      | inr (x, e) ↦ elim (Bool-cases (retry_piecewise d x first.1)) [
        | inr given_up ↦ rw (e, given_up, read_object_list) gives_up
        | inl retry ↦
            let reply = read_one d o prop_object_list (some 0) first.1 in
            elim (Fetched-cases reply.0) [
              | inr (y, f) ↦ rw (e, retry, f, read_object_list) gives_up
              | inl (values, f) ↦
                  rw (e, retry, f, read_object_list)
                    (read_elements-Gives d o values reply.1
                      λ u h. fits first.1.world values u (fetched_of-eq _ values f) h)
            ]
      ]
    ]
