-- ===== src/Cache/Gives.antt =====
-- What a step of a load gives where it does not fail, internal/api/varcache.go.
use mathlib.Core.Path.{subst}
use bacnet_ip_rest_proxy.Prelude.{
  List, ◌++◌, Bool, true, false, ◌≡◌, ◌≢◌, refl, ap, ◌⊎◌, inl, inr, if◌then◌else◌,
}
use bacnet_ip_rest_proxy.Cache.{
  Loader, Loaded, loaded, load_failed, endless, Loading, and_then, Failure, Fetched, fetched, fault,
}

-- The step ends, with a failure or a value with the property.
pub data Gives {A : Type 0} (P : A → Type 0) : Loaded A → Type 0 where
  gives : {a : A} → P a → Gives P (loaded a)
  gives_up : {e : _} → Gives P (load_failed e)

module _ {A : Type 0} {P : A → Type 0} where
  pub Gives-ne-endless : {r : Loaded A} → Gives P r → r ≢ endless
  Gives-ne-endless (gives h) = cc
  Gives-ne-endless gives_up = cc

  pub Gives-loaded : {r : Loaded A} {a : A} → Gives P r → r ≡ loaded a → P a
  Gives-loaded (gives h) e = subst P (cc) h
  Gives-loaded gives_up e = cc

  -- What it gives is what it gave.
  pub Gives-self : {r : Loaded A} → Gives P r → Gives (λ a. r ≡ loaded a) r
  Gives-self (gives h) = gives refl
  Gives-self gives_up = gives_up

  pub Gives-weaken : {Q : A → Type 0} {r : Loaded A} → Gives P r → ((a : A) → P a → Q a) → Gives Q r
  Gives-weaken (gives {a} h) k = gives (k a h)
  Gives-weaken gives_up k = gives_up

  pub Gives-then :
      {W B : Type 0} {Q : B → Type 0} (m : Loaded A × Loader W) (f : A → Loading W B)
      → Gives P m.0
      → ((a : A) (s : Loader W) → P a → Gives Q (f a s).0)
      → Gives Q (and_then m f).0
  unfolding and_then
  Gives-then (loaded a, s) f h k = k a s (Gives-loaded h refl)
  Gives-then (load_failed e, s) f h k = gives_up
  Gives-then (endless, s) f h k = absurd (Gives-ne-endless h refl)

pub Fetched-cases :
    {A : Type 0} (r : Fetched A) → ((a : A) × (r ≡ fetched a)) ⊎ ((e : Failure) × (r ≡ fault e))
Fetched-cases (fetched a) = inl (a, refl)
Fetched-cases (fault e) = inr (e, refl)

pub Loaded-cases :
    {A : Type 0} (r : Loaded A)
    → ((a : A) × (r ≡ loaded a)) ⊎ ((x : Failure) × (r ≡ load_failed x)) ⊎ (r ≡ endless)
Loaded-cases (loaded a) = inl (a, refl)
Loaded-cases (load_failed x) = inr (inl (x, refl))
Loaded-cases endless = inr (inr refl)

pub Gives-if :
    {A : Type 0} {P : A → Type 0} (b : Bool) {x y : Loaded A}
    → (b ≡ true → Gives P x)
    → (b ≡ false → Gives P y)
    → Gives P (if b then x else y)
Gives-if true hx hy = hx refl
Gives-if false hx hy = hy refl

loaded_eq : {A : Type 0} {a b : A} → ◌≡◌ {A = Loaded A} (loaded a) (loaded b) → a ≡ b
loaded_eq h = cc

-- A step that gives a value goes on with it.
pub and_then-loaded :
    {W A B : Type 0} (m : Loaded A × Loader W) (f : A → Loading W B) (a : A)
    → m.0 ≡ loaded a
    → and_then m f ≡ f a m.1
unfolding and_then
and_then-loaded (loaded b, s) f a e = ap (λ c. f c s) (loaded_eq e)
and_then-loaded (load_failed x, s) f a e = cc
and_then-loaded (endless, s) f a e = cc

-- Two steps that give lists, one behind the other.
pub and_then-append :
    {W A : Type 0} (m : Loaded (List A) × Loader W) (g : Loading W (List A)) (xs ys : List A)
    → m.0 ≡ loaded xs
    → (g m.1).0 ≡ loaded ys
    → (and_then m (λ a t. and_then (g t) λ b u. (loaded (a ++ b), u))).0 ≡ loaded (xs ++ ys)
and_then-append m g xs ys e e' =
    rw (and_then-loaded m (λ a t. and_then (g t) λ b u. (loaded (a ++ b), u)) xs e)
      (ap (λ r. r.0) (and_then-loaded (g m.1) (λ b u. (loaded (xs ++ b), u)) ys e'))
