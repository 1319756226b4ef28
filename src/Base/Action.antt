-- ===== src/Base/Action.antt =====
-- Go methods on a pointer receiver that return `(value, error)`: the state comes back with the
-- result, also after an error, since what was written stays written.
use mathlib.Core.Path.{◌≡◌, refl}
use mathlib.Core.Logic.{◌⊎◌, inl, inr}
use mathlib.Core.Bool.{Bool, true, false}

pub data Result {ℓ κ} (E : Type ℓ) (A : Type κ) : Type (ℓ ⊔ κ) where
  ok : A → Result E A
  err : E → Result E A

module _ {ℓ} {E : Type ℓ} where
  abbrev pub map_err {κ ι} : {F : Type ι} {A : Type κ} → (E → F) → Result E A → Result F A
  map_err f (ok a) = ok a
  map_err f (err e) = err (f e)

  -- `if c { return e }`
  abbrev pub fail_if : Bool → E → Result E (Unit {0})
  fail_if true e = err e
  fail_if false e = ok tt

  infixl 5 ◌>>=◌ ◌>>◌
  abbrev pub ◌>>=◌ {κ ι} : {A : Type κ} {B : Type ι} → Result E A → (A → Result E B) → Result E B
  ok a >>= f = f a
  err e >>= f = err e

  abbrev pub ◌>>◌ {ι} : {B : Type ι} → Result E (Unit {0}) → Result E B → Result E B
  m >> k = m >>= λ _. k

-- To split on a computed result and keep the equation.
pub Result-cases {ℓ κ} :
    {E : Type ℓ} {A : Type κ} (r : Result E A) → ((a : A) × (r ≡ ok a)) ⊎ ((e : E) × (r ≡ err e))
Result-cases (ok a) = inl (a, refl)
Result-cases (err e) = inr (e, refl)
