-- ===== src/Prelude/Results.antt =====
-- Outcomes of Go code: a value, an error, a runtime panic, and, for a loop of the model, fuel
-- that ran out, which is no behaviour of the program.
use mathlib.Core.Path.{◌≡◌, refl, subst}
use mathlib.Core.Logic.{◌≢◌, ◌⊎◌, inl, inr}
use mathlib.Core.Bool.{Bool, true, false}
use Prim.Native.Nat.{ℕ}
use bacnet_ip_rest_proxy.Prelude.Tests.{if◌then◌else◌}

-- The errors of internal/bacnet, one for each kind of message.
pub data Error : Type 0 where
  truncated : Error
  malformed : Error
  unsupported : Error
  wrong_tag : ℕ → Error
  too_deep : Error
  mismatch : Error

pub data Outcome {ℓ} (A : Type ℓ) : Type ℓ where
  ok : A → Outcome A
  err : Error → Outcome A
  panic : Outcome A
  out_of_fuel : Outcome A

infixl 5 ◌>>=◌ ◌>>◌
abbrev pub ◌>>=◌ {ℓ κ} : {A : Type ℓ} {B : Type κ} → Outcome A → (A → Outcome B) → Outcome B
ok a >>= f = f a
err e >>= f = err e
panic >>= f = panic
out_of_fuel >>= f = out_of_fuel

abbrev pub ◌>>◌ {ℓ} : {B : Type ℓ} → Outcome (Unit {0}) → Outcome B → Outcome B
m >> k = m >>= λ _. k

-- `if !b { return err }`
abbrev pub guard : Bool → Error → Outcome (Unit {0})
guard true e = ok tt
guard false e = err e

-- The run ends without a panic, and `P` holds of its value if it returns one.
pub data Ensures {ℓ κ} {A : Type ℓ} (P : A → Type κ) : Outcome A → Type (ℓ ⊔ κ) where
  returns : {a : A} → P a → Ensures P (ok a)
  fails : {e : Error} → Ensures P (err e)

module _ {ℓ κ} {A : Type ℓ} {P : A → Type κ} where
  pub Ensures-ok : {r : Outcome A} {a : A} → Ensures P r → r ≡ ok a → P a
  Ensures-ok (returns h) e = subst P (cc) h
  Ensures-ok fails e = cc

  pub Ensures-ne-panic : {r : Outcome A} → Ensures P r → r ≢ panic
  Ensures-ne-panic (returns h) = cc
  Ensures-ne-panic fails = cc

  pub Ensures-ne-out_of_fuel : {r : Outcome A} → Ensures P r → r ≢ out_of_fuel
  Ensures-ne-out_of_fuel (returns h) = cc
  Ensures-ne-out_of_fuel fails = cc

  pub Ensures-cases :
      {r : Outcome A} → Ensures P r → ((a : A) × (r ≡ ok a)) ⊎ ((e : Error) × (r ≡ err e))
  Ensures-cases (returns {a} h) = inl (a, refl)
  Ensures-cases (fails {e}) = inr (e, refl)

  pub Ensures-if :
      (b : Bool) {x y : Outcome A}
      → (b ≡ true → Ensures P x)
      → (b ≡ false → Ensures P y)
      → Ensures P (if b then x else y)
  Ensures-if true hx hy = hx refl
  Ensures-if false hx hy = hy refl

  pub Ensures-guard :
      (b : Bool) (e : Error) {k : Outcome A} → (b ≡ true → Ensures P k) → Ensures P (guard b e >> k)
  Ensures-guard true e hk = hk refl
  Ensures-guard false e hk = fails

  pub Ensures-bind {ℓ' κ'} :
      {B : Type ℓ'} {Q : B → Type κ'} {r : Outcome A} {f : A → Outcome B}
      → Ensures P r
      → ((a : A) → P a → Ensures Q (f a))
      → Ensures Q (r >>= f)
  Ensures-bind (returns {a} h) k = k a h
  Ensures-bind fails k = fails

  pub Ensures-weaken {κ'} :
      {Q : A → Type κ'} {r : Outcome A} → Ensures P r → ((a : A) → P a → Q a) → Ensures Q r
  Ensures-weaken (returns {a} h) k = returns (k a h)
  Ensures-weaken fails k = fails

-- What a run that returned says of its parts.
pub >>=-eq-ok {ℓ κ} :
    {A : Type ℓ} {B : Type κ} (m : Outcome A) (f : A → Outcome B) {b : B}
    → (m >>= f) ≡ ok b
    → (a : A) × (m ≡ ok a) × (f a ≡ ok b)
>>=-eq-ok (ok a) f e = (a, refl, e)
>>=-eq-ok (err x) f e = cc
>>=-eq-ok panic f e = cc
>>=-eq-ok out_of_fuel f e = cc

pub guard-eq-ok {ℓ} :
    {B : Type ℓ} (c : Bool) (x : Error) {k : Outcome B} {b : B}
    → (guard c x >> k) ≡ ok b
    → (c ≡ true) × (k ≡ ok b)
guard-eq-ok true x e = (refl, e)
guard-eq-ok false x e = cc
