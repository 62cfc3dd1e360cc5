-- ===== src/Cache/ObjectList/Whole.antt =====
-- What reading an object-list piecewise gives, readObjectList of internal/api/varcache.go.
use mathlib.Core.List.{map-append}
use native.Mathlib.Nat.{add-zero, zero-add, suc-add}
use bacnet_ip_rest_proxy.Prelude.{
  ℕ, zero, suc, ◌+◌, ◌-◌, ◌≤◌, ◌<◌, ◌%◌, ◌^◌, min, ◌≡◌, ◌⊎◌, refl, sym, ap, ◌∙◌, inl, inr, false,
  List, [], ◌∷◌, All, ◌++◌, append-nil, map, none, some, leb, leb→le, leb_false→lt, Bool-cases,
  arith,
}
use bacnet_ip_rest_proxy.Bacnet.Primitive.{ObjectIdentifier}
use bacnet_ip_rest_proxy.Bacnet.Value.{Value, nil, cons, primitive, unsigned}
use bacnet_ip_rest_proxy.Bacnet.Services.Multiple.{ReadAccessResult, PropertyResult, read_values}
use bacnet_ip_rest_proxy.Client.{abort_error, reject_error, timeout_error}
use bacnet_ip_rest_proxy.Client.Calls.{returned, refused, failed}
use bacnet_ip_rest_proxy.Cache.{
  Device, Loader, loaded, and_then, fetched, settled, fetched_of, read_one, read_many,
  retry_piecewise, note_rpm_failure, list_of, prop_object_list, device_object,
}
use bacnet_ip_rest_proxy.Cache.Gives.{and_then-append}
use bacnet_ip_rest_proxy.Cache.ObjectList.{
  index_chunk, collect_results, collect_objects, element_reference, read_each, read_listed,
  read_indexes, batches, length_in, read_elements, read_object_list,
}
use bacnet_ip_rest_proxy.Cache.ObjectList.Laws.{range, indexes-range, asked}

abbrev pub element_results : (ℕ → Value) → List ℕ → List PropertyResult
element_results element [] = []
element_results element (i ∷ is) =
    record { reference = element_reference i; outcome = read_values (cons (element i) nil) }
    ∷ element_results element is

abbrev pub elements_result : ObjectIdentifier → (ℕ → Value) → List ℕ → List ReadAccessResult
elements_result o element is = record { object = o; results = element_results element is } ∷ []

-- An index of a list of `n` elements.
abbrev pub InList : ℕ → ℕ → Type 0
InList n i = (1 ≤ i) × (i ≤ n)

-- A device whose object-list has the elements `element 1` to `element n`: it does not answer for the
-- whole list, but for one element at a time, and may answer for several together. What it answers
-- about an index that is not in the list is left open.
pub record IsPiecewise {W : Type 0} (d : Device W) (o : ObjectIdentifier) (element : ℕ → Value)
    (n : ℕ) : Type 0 where
  pub running : (w : W) → d.ended w ≡ false
  pub too_long :
      (w : W)
      → ((reason : ℕ) × ((d.read_property o prop_object_list none w).0
            ≡ refused (abort_error reason)))
        ⊎ ((d.read_property o prop_object_list none w).0 ≡ failed timeout_error)
  pub size :
      (w : W)
      → (d.read_property o prop_object_list (some 0) w).0
        ≡ returned (cons (primitive (unsigned n)) nil)
  pub single :
      (i : ℕ) (w : W)
      → 1 ≤ i
      → i ≤ n
      → (d.read_property o prop_object_list (some i) w).0 ≡ returned (cons (element i) nil)
  pub several :
      (is : List ℕ) (w : W)
      → All (InList n) is
      → ((d.read_property_multiple (asked d o is) w).0 ≡ returned (elements_result o element is))
        ⊎ ((d.read_property_multiple (asked d o is) w).0 ≡ refused (reject_error 9))
        ⊎ ((reason : ℕ) × ((d.read_property_multiple (asked d o is) w).0
              ≡ refused (abort_error reason)))
        ⊎ ((d.read_property_multiple (asked d o is) w).0 ≡ failed timeout_error)

range-InList : (n m start : ℕ) → 1 ≤ start → start + m ≤ suc n → All (InList n) (range start m)
range-InList n zero start low high = tt
range-InList n (suc m) start low high =
    ((low, omega arith), range-InList n m (start + 1) (omega arith) (omega arith))

range-append : (start k m : ℕ) → range start (k + m) ≡ range start k ++ range (start + k) m
range-append start zero m = rw (zero-add, add-zero) refl
range-append start (suc k) m =
    let e : start + suc k ≡ start + 1 + k = omega arith in
    rw (suc-add, e) (ap (λ t. start ∷ t) (range-append (start + 1) k m))

range-batch :
    (start k m : ℕ)
    → (m ≡ 0) ⊎ (k ≡ index_chunk)
    → range start (k + m) ≡ range start k ++ range (start + index_chunk) m
range-batch start k m (inl none_left) = rw (none_left, add-zero) (sym (append-nil _))
range-batch start k m (inr full) = rw (full) (range-append start index_chunk m)

module _ {W : Type 0} (d : Device W) (o : ObjectIdentifier) (element : ℕ → Value) (n : ℕ)
    (h : IsPiecewise d o element n) where
  read_each-elements :
      (m start : ℕ) (s : Loader W)
      → 1 ≤ start
      → start + m ≤ suc n
      → (read_each d o (range start m) s).0 ≡ loaded (map element (range start m))
  unfolding read_each read_one fetched_of settled and_then list_of
  read_each-elements zero start s low high = refl
  read_each-elements (suc m) start s low high =
      rw
        (
          h.single start s.world low (omega arith),
          read_each-elements m (start + 1)
              (record s { world = (d.read_property o prop_object_list (some start) s.world).1 })
              (omega arith) (omega arith),
        )
        refl

  collect_results-elements :
      (is : List ℕ) → collect_results (element_results element is) ≡ fetched (map element is)
  unfolding collect_results list_of
  collect_results-elements [] = refl
  collect_results-elements (i ∷ is) = rw (collect_results-elements is) refl

  collect_objects-elements :
      (is : List ℕ) → collect_objects (elements_result o element is) ≡ fetched (map element is)
  unfolding collect_objects
  collect_objects-elements is =
      rw (collect_objects, collect_results-elements is) (ap fetched (append-nil _))

  read_listed-elements :
      (m start : ℕ) (s : Loader W)
      → 1 ≤ start
      → start + m ≤ suc n
      → (read_listed d o (range start m) s).0 ≡ loaded (map element (range start m))
  unfolding read_listed read_many fetched_of note_rpm_failure retry_piecewise settled
  read_listed-elements m start s low high =
      let is = range start m in
      let w = (d.read_property_multiple (asked d o is) s.world).1 in
      elim (Bool-cases s.no_rpm) [
        | inl one ↦ rw (one, read_listed) (read_each-elements m start s low high)
        | inr many ↦ elim (h.several is s.world (range-InList n m start low high)) [
          | inl answered ↦ rw (many, answered, read_listed, collect_objects-elements is) refl
          | inr (inl rejected) ↦
              rw (many, rejected, read_listed) (read_each-elements m start _ low high)
          | inr (inr (inl (reason, aborted))) ↦
              rw (many, aborted, read_listed, h.running w) (read_each-elements m start _ low high)
          | inr (inr (inr silent)) ↦
              rw (many, silent, read_listed, h.running w) (read_each-elements m start _ low high)
        ]
      ]

  read_indexes-elements :
      (start m end : ℕ) (s : Loader W)
      → 1 ≤ start
      → start + m ≡ suc end
      → end ≤ n
      → n + index_chunk < 2 ^ 32
      → (read_indexes d o start end s).0 ≡ loaded (map element (range start m))
  unfolding read_indexes and_then
  read_indexes-elements start m end s low e high small =
      rw (indexes-range start m end e (omega arith), read_indexes)
        (read_listed-elements m start s low (omega arith))

  batches-elements :
      (fuel start : ℕ) (s : Loader W)
      → 1 ≤ start
      → 1 ≤ fuel
      → suc n < start + fuel
      → n + index_chunk < 2 ^ 32
      → (batches d o fuel start n s).0 ≡ loaded (map element (range start (suc n - start)))
  unfolding batches
  batches-elements zero start s low one enough small = absurd (omega arith)
  batches-elements (suc fuel) start s low one enough small = elim (Bool-cases (leb start n)) [
    | inr over ↦
        let empty : suc n - start ≡ 0 = omega (arith, leb_false→lt start n over) in
        rw (over, empty, batches) refl
    | inl more ↦
        let high = leb→le start n more in
        let next : (start + index_chunk) % 2 ^ 32 ≡ start + index_chunk = omega (arith, high) in
        let end = min ((start + index_chunk - 1) % 2 ^ 32) n in
        let k = suc end - start in
        let others = suc n - (start + index_chunk) in
        let split : suc n - start ≡ k + others = omega (arith, high) in
        let first = read_indexes d o start end s in
        rw (more, next, batches)
          (and_then-append first (batches d o fuel (start + index_chunk) n)
              (map element (range start k)) (map element (range (start + index_chunk) others))
              (read_indexes-elements start k end s low (omega (arith, high)) (omega arith) small)
              (batches-elements fuel (start + index_chunk) first.1 (omega arith)
                (omega (arith, high)) (omega (arith, high)) small)
            ∙ rw (split, range-batch start k others (omega (arith, high)))
                (ap loaded (sym (map-append element (range start k) _))))
  ]

  elements_of_list :
      (s : Loader W)
      → n + index_chunk < 2 ^ 32
      → (read_elements d o (cons (primitive (unsigned n)) nil) s).0
        ≡ loaded (map element (range 1 n))
  unfolding read_elements length_in
  elements_of_list s small =
      let e : n % 2 ^ 32 ≡ n = omega arith in
      let all : suc n - 1 ≡ n = omega arith in
      rw e (
        batches-elements (suc n) 1 s (omega arith) (omega arith) (omega arith) small
        ∙ ap (λ m. loaded (map element (range 1 m))) all)

-- Reading the object-list of a device that answers for it only piecewise, since the whole reply is
-- aborted or times out, gives its elements in order, whether the device answers a
-- ReadPropertyMultiple of indexes of the list with their elements, rejects it as unrecognized,
-- aborts it or lets it time out, each time anew; where the list has fewer than 2 ^ 32 - 50 elements
-- and the context of the load does not end.
pub read_object_list-elements :
    {W : Type 0} (d : Device W) (number n : ℕ) (element : ℕ → Value) (s : Loader W)
    → IsPiecewise d (device_object number) element n
    → n + index_chunk < 2 ^ 32
    → (read_object_list d number s).0 ≡ loaded (map element (range 1 n))
unfolding read_object_list read_one fetched_of retry_piecewise settled and_then
read_object_list-elements d number n element s h small =
    let o = device_object number in
    let w = (d.read_property o prop_object_list none s.world).1 in
    elim (h.too_long s.world) [
      | inl (reason, long) ↦
          rw (long, read_object_list, h.running w, h.size w)
            (elements_of_list d o element n h _ small)
      | inr silent ↦
          rw (silent, read_object_list, h.running w, h.size w)
            (elements_of_list d o element n h _ small)
    ]
