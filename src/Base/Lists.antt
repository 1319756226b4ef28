-- ===== src/Base/Lists.antt =====
-- Lists measured by native numbers, and a predicate on every element.
use Prim.Native.Nat.{ℕ, suc, ◌+◌, ◌≤◌}
use payment_gateway.Base.Tests.{if◌then◌else◌}
use mathlib.Core.Logic.{◌⊎◌, inl, inr}
use mathlib.Core.Path.{◌≡◌, refl, ap}
use mathlib.Core.Bool.{Bool, true, false, ◌&&◌, ◌||◌}
use mathlib.Core.Option.{Option, none, some}
use mathlib.Core.List.{List, [], ◌∷◌, ◌++◌, map}
use native.Mathlib.Omega.{arith}

module _ {ℓ} {A : Type ℓ} where
  abbrev pub length : List A → ℕ
  length [] = 0
  length (x ∷ xs) = suc (length xs)

  abbrev pub All {κ} : (A → Type κ) → List A → Type κ
  All P [] = Unit
  All P (x ∷ xs) = P x × All P xs

  -- The first element that passes the test.
  abbrev pub find : (A → Bool) → List A → Option A
  find p [] = none
  find p (x ∷ xs) = elim (p x) [ true ↦ some x | false ↦ find p xs ]

  pub find-skip : (p : A → Bool) (x : A) (xs : List A) → p x ≡ false → find p (x ∷ xs) ≡ find p xs
  find-skip p x xs h = rw (h, find) refl

  pub find-take : (p : A → Bool) (x : A) (xs : List A) → p x ≡ true → find p (x ∷ xs) ≡ some x
  find-take p x xs h = rw (h, find) refl

  abbrev pub any : (A → Bool) → List A → Bool
  any p [] = false
  any p (x ∷ xs) = p x || any p xs

  abbrev pub all : (A → Bool) → List A → Bool
  all p [] = true
  all p (x ∷ xs) = p x && all p xs

  -- How many elements pass the test.
  abbrev pub countp : (A → Bool) → List A → ℕ
  countp p [] = 0
  countp p (x ∷ xs) = (if p x then 1 else 0) + countp p xs

  pub countp-append :
      (p : A → Bool) (xs ys : List A) → countp p (xs ++ ys) ≡ countp p xs + countp p ys
  countp-append p [] ys = omega arith
  countp-append p (x ∷ xs) ys = omega (arith, countp-append p xs ys)

  pub countp_mono :
      (p q : A → Bool) (h : (x : A) → p x ≡ true → q x ≡ true) (xs : List A)
      → countp p xs ≤ countp q xs
  countp_mono p q h [] = omega arith
  countp_mono p q h (x ∷ xs) = ground (arith, h x, countp_mono p q h xs)

  pub countp-le-length : (p : A → Bool) (xs : List A) → countp p xs ≤ length xs
  countp-le-length p [] = omega arith
  countp-le-length p (x ∷ xs) = ground (arith, countp-le-length p xs)

  pub All-map {κ ι} :
      {P : A → Type κ} {Q : A → Type ι} (f : (x : A) → P x → Q x) (xs : List A)
      → All P xs
      → All Q xs
  All-map f [] h = tt
  All-map f (x ∷ xs) h = (f x h.0, All-map f xs h.1)

  pub length-append : (xs ys : List A) → length (xs ++ ys) ≡ length xs + length ys
  length-append [] ys = omega arith
  length-append (x ∷ xs) ys = omega (arith, length-append xs ys)

  pub All-append {κ} : (P : A → Type κ) (xs ys : List A) → All P xs → All P ys → All P (xs ++ ys)
  All-append P [] ys hx hy = hy
  All-append P (x ∷ xs) ys hx hy = (hx.0, All-append P xs ys hx.1 hy)

pub length-map {ℓ κ} :
    {A : Type ℓ} {B : Type κ} (xs : List A) (f : A → B) → length (map f xs) ≡ length xs
length-map [] f = refl
length-map (x ∷ xs) f = ap suc (length-map xs f)

-- An element of the list.
abbrev pub Member : {A : Type 0} → A → List A → Type 0
Member a [] = ⊥
Member a (x ∷ xs) = (x ≡ a) ⊎ Member a xs

pub All-Member : {A : Type 0} (xs : List A) → All (λ x. Member x xs) xs
All-Member [] = tt
All-Member (x ∷ xs) = (inl refl, All-map (λ y m. inr m) xs (All-Member xs))
