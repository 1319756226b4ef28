-- ===== src/Base/Int/Wrap.antt =====
-- Wrapping once or at every step is the same: int64 addition is addition up to multiples of 2 ^ 64.
use payment_gateway.Base.{◌≡◌, ◌∙◌, ap, arith}
use payment_gateway.Base.Int.{
  ℤ, pos, negsuc, wrap64, ◌+ℤ◌, ◌-ℤ◌, neg64, ◌<ℤ◌, IsInt64, wrap64_of_IsInt64, int_laws, -ℤ_parts,
}

pub wrap64-add : (x y : ℤ) → wrap64 (wrap64 x +ℤ y) ≡ wrap64 (x +ℤ y)
unfolding wrap64 ◌+ℤ◌
wrap64-add (pos x) (pos y) = ground arith
wrap64-add (pos x) (negsuc y) = ground arith
wrap64-add (negsuc x) (pos y) = ground arith
wrap64-add (negsuc x) (negsuc y) = ground arith

pub +ℤ_zero : (a : ℤ) → a +ℤ pos 0 ≡ a
+ℤ_zero a = grind int_laws

pub +ℤ_assoc : (a b c : ℤ) → (a +ℤ b) +ℤ c ≡ a +ℤ (b +ℤ c)
+ℤ_assoc a b c = grind int_laws

pub zero_+ℤ : (a : ℤ) → pos 0 +ℤ a ≡ a
zero_+ℤ a = grind int_laws

pub neg64_exact : (a : ℤ) → IsInt64 a → pos 0 <ℤ a → neg64 a ≡ pos 0 -ℤ a
unfolding neg64
neg64_exact a i p = wrap64_of_IsInt64 (pos 0 -ℤ a) (ground (arith, i, p, -ℤ_parts (pos 0) a))

pub neg_neg : (a : ℤ) → pos 0 -ℤ (pos 0 -ℤ a) ≡ a
neg_neg a = grind int_laws

pub neg_zero : pos 0 -ℤ pos 0 ≡ pos 0
neg_zero = grind int_laws

pub neg_sum : (a b : ℤ) → (pos 0 -ℤ a) +ℤ (pos 0 -ℤ b) ≡ pos 0 -ℤ (a +ℤ b)
neg_sum a b = grind int_laws

pub there_and_back : (x y : ℤ) → IsInt64 x → wrap64 (wrap64 (x +ℤ y) +ℤ (pos 0 -ℤ y)) ≡ x
there_and_back x y h =
    let cancels : (x +ℤ y) +ℤ (pos 0 -ℤ y) ≡ x = grind int_laws in
    wrap64-add (x +ℤ y) (pos 0 -ℤ y) ∙ ap wrap64 cancels ∙ wrap64_of_IsInt64 x h
