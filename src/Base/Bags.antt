-- ===== src/Base/Bags.antt =====
-- Lists as bags: how often an element occurs, and maps of counters.
use Prim.Native.Nat.{ℕ, suc, ◌+◌, ◌≤◌}
use mathlib.Core.Path.{◌≡◌, refl, ap}
use mathlib.Core.Logic.{◌↔◌, inl, inr}
use mathlib.Core.Bool.{Bool, true}
use mathlib.Core.Option.{none, some}
use mathlib.Core.List.{List, [], ◌∷◌}
use native.Mathlib.Omega.{arith}
use payment_gateway.Base.Tests.{if◌then◌else◌, Bool-cases}
use payment_gateway.Base.Lists.{length}
use payment_gateway.Base.Dict.{lookup, insert}

module _ {ℓ} {A : Type ℓ} (eq : A → A → Bool) where
  -- How often `x` occurs.
  abbrev pub occurs : A → List A → ℕ
  occurs x [] = 0
  occurs x (y ∷ ys) = (if eq y x then 1 else 0) + occurs x ys

  -- Without the first occurrence of `x`.
  abbrev remove : A → List A → List A
  remove x [] = []
  remove x (y ∷ ys) = if eq y x then ys else y ∷ remove x ys

  -- A counter, 0 where there is none.
  abbrev pub counter : A → List (A × ℕ) → ℕ
  counter x m = elim (lookup eq x m) [ some n ↦ n | none ↦ 0 ]

  module _ (eq_iff : (x y : A) → (eq x y ≡ true) ↔ (x ≡ y)) where
    eq_sym : (x y : A) → eq x y ≡ eq y x
    eq_sym x y = ground (arith, eq_iff x y, eq_iff y x)

    -- What a map holds after `m[k] = v`.
    pub lookup-insert {κ} :
        {V : Type κ} (x k : A) (v : V) (m : List (A × V))
        → lookup eq x (insert eq k v m) ≡ (if eq k x then some v else lookup eq x m)
    lookup-insert x k v [] = refl
    lookup-insert x k v ((j, w) ∷ m) = elim (Bool-cases (eq j k)) [
      | inl e ↦ let q : j ≡ k = (eq_iff j k).0 e in rw (e, q) (ground (arith, e))
      | inr e ↦
          let rest = lookup-insert x k v m in
          rw e (ground (arith, e, eq_iff j k, eq_iff j x, eq_iff k x, rest))
    ]

    -- A counter after one was set.
    pub counter-insert :
        (x k : A) (n : ℕ) (m : List (A × ℕ))
        → counter x (insert eq k n m) ≡ (if eq k x then n else counter x m)
    counter-insert x k n [] = ground arith
    counter-insert x k n ((j, v) ∷ m) =
        ground (arith, eq_iff j k, eq_iff j x, eq_iff k x, counter-insert x k n m)

    remove-length : (x : A) (ys : List A) → 1 ≤ occurs x ys → length ys ≡ suc (length (remove x ys))
    remove-length x [] h = absurd (omega arith)
    remove-length x (y ∷ ys) h = elim (Bool-cases (eq y x)) [
      | inl e ↦ rw e refl
      | inr e ↦ let rest = remove-length x ys (omega (arith, (rw e at h))) in rw e (ap suc rest)
    ]

    remove-occurs :
        (l x : A) (ys : List A)
        → 1 ≤ occurs x ys
        → occurs l ys ≡ (if eq x l then 1 else 0) + occurs l (remove x ys)
    remove-occurs l x [] h = absurd (omega arith)
    remove-occurs l x (y ∷ ys) h = elim (Bool-cases (eq y x)) [
      | inl e ↦ let q : y ≡ x = (eq_iff y x).0 e in rw (e, q) refl
      | inr e ↦
          let rest = remove-occurs l x ys (omega (arith, (rw e at h))) in rw e (omega (arith, rest))
    ]

    -- A bag that contains another of the same size is that bag.
    pub occurs-full :
        (xs ys : List A)
        → length xs ≡ length ys
        → ((l : A) → occurs l xs ≤ occurs l ys)
        → (l : A) → occurs l xs ≡ occurs l ys
    occurs-full [] [] e h l = refl
    occurs-full [] (y ∷ ys) e h l = absurd (omega (arith, e))
    occurs-full (x ∷ xs) ys e h l =
        let self : eq x x ≡ true = (eq_iff x x).1 refl in
        let one : 1 ≤ occurs x ys = omega (arith, h x, ap {B = ℕ} (λ b. if b then 1 else 0) self) in
        let shorter : length xs ≡ length (remove x ys) = omega (arith, e, remove-length x ys one) in
        let rest =
          occurs-full xs (remove x ys) shorter (λ k. omega (arith, h k, remove-occurs k x ys one))
            l in
        omega (arith, rest, remove-occurs l x ys one)
