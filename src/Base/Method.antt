-- ===== src/Base/Method.antt =====
-- A Go method with a pointer receiver: it reads and writes the receiver and returns a value or an
-- error. The receiver comes back after an error too, since what was written stays written.
use mathlib.Core.Bool.{Bool, true, false}
use payment_gateway.Base.Action.{Result, ok, err}

abbrev pub Method : Type 0 → Type 0 → Type 0 → Type 0
Method S E A = S → Result E A × S

module _ {S E : Type 0} where
  abbrev pub pure : {A : Type 0} → A → Method S E A
  pure a s = (ok a, s)

  abbrev pub raise : {A : Type 0} → E → Method S E A
  raise e s = (err e, s)

  -- `if c { return e }`
  abbrev pub raise_if : Bool → E → Method S E (Unit {0})
  raise_if true e s = (err e, s)
  raise_if false e s = (ok tt, s)

  abbrev pub get : Method S E S
  get s = (ok s, s)

  abbrev pub modify : (S → S) → Method S E (Unit {0})
  modify f s = (ok tt, f s)

  abbrev pub lift : {F A : Type 0} → (F → E) → Result F A → Method S E A
  lift f (ok a) s = (ok a, s)
  lift f (err e) s = (err (f e), s)

  infixl 5 ◌>>=◌ ◌>>◌
  abbrev pub ◌>>=◌ : {A B : Type 0} → Method S E A → (A → Method S E B) → Method S E B
  ◌>>=◌ m f s = let (r, s') = m s in elim r [ ok a ↦ f a s' | err e ↦ (err e, s') ]

  abbrev pub ◌>>◌ : {B : Type 0} → Method S E (Unit {0}) → Method S E B → Method S E B
  m >> k = m >>= λ _. k
