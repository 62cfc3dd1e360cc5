-- ===== src/Cache/ObjectList/Endless.antt =====
-- An object-list whose length the counter of readObjectList cannot exceed, internal/api/varcache.go.
use bacnet_ip_rest_proxy.Prelude.{
  ℕ, zero, suc, ◌+◌, ◌-◌, ◌<◌, ◌%◌, ◌^◌, ◌≢◌, refl, List, le→leb, arith,
}
use bacnet_ip_rest_proxy.Bacnet.Primitive.{ObjectIdentifier}
use bacnet_ip_rest_proxy.Bacnet.Value.{Value, nil, cons, primitive, unsigned}
use bacnet_ip_rest_proxy.Cache.{
  Failure, Device, Loader, Loaded, loaded, load_failed, endless, Loading, and_then,
}
use bacnet_ip_rest_proxy.Cache.ObjectList.{index_chunk, batches, length_in, read_elements}

-- A step that gives no value: it fails, or does not end.
data NoValue {A : Type 0} : Loaded A → Type 0 where
  by_failure : {e : Failure} → NoValue (load_failed e)
  by_loop : NoValue endless

NoValue-ne-loaded : {A : Type 0} {r : Loaded A} (a : A) → NoValue r → r ≢ loaded a
NoValue-ne-loaded a by_failure = cc
NoValue-ne-loaded a by_loop = cc

NoValue-then :
    {W A B : Type 0} (m : Loaded A × Loader W) (f : A → Loading W B)
    → ((a : A) (s : Loader W) → NoValue (f a s).0)
    → NoValue (and_then m f).0
unfolding and_then
NoValue-then (loaded a, s) f h = h a s
NoValue-then (load_failed e, s) f h = by_failure
NoValue-then (endless, s) f h = by_loop

NoValue-first :
    {W A B : Type 0} (m : Loaded A × Loader W) (f : A → Loading W B)
    → NoValue m.0
    → NoValue (and_then m f).0
unfolding and_then
NoValue-first (loaded a, s) f h = absurd (NoValue-ne-loaded a h refl)
NoValue-first (load_failed e, s) f h = by_failure
NoValue-first (endless, s) f h = by_loop

abbrev pub last_counter : ℕ
last_counter = 2 ^ 32 - 1

module _ {W : Type 0} (d : Device W) (o : ObjectIdentifier) where
  batches-NoValue :
      (fuel start : ℕ) (s : Loader W)
      → start < 2 ^ 32
      → NoValue (batches d o fuel start last_counter s).0
  unfolding batches
  batches-NoValue zero start s low = by_loop
  batches-NoValue (suc fuel) start s low =
      rw (le→leb start last_counter (omega arith), batches)
        (NoValue-then _ _ λ values t.
          NoValue-first _ _ (batches-NoValue fuel ((start + index_chunk) % 2 ^ 32) t (omega arith)))

  -- Where the device says that its object-list has 2 ^ 32 - 1 elements, reading them never
  -- gives a list, whatever it answers: the counter wraps around below the length.
  pub read_elements-never :
      (s : Loader W) (l : List Value)
      → (read_elements d o (cons (primitive (unsigned last_counter)) nil) s).0 ≢ loaded l
  unfolding read_elements length_in
  read_elements-never s l =
      NoValue-ne-loaded l (batches-NoValue (suc last_counter) 1 s (omega arith))
