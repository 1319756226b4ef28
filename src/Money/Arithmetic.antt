-- ===== src/Money/Arithmetic.antt =====
-- What pkg/money/money.go promises of `Add`, `Sub` and `Cmp`: exact results, or the error that
-- says why there is none.
use payment_gateway.Base.{
  String, Bool, true, false, ◌&&◌, ◌||◌, text_eq, text_eq_iff, ◌≡◌, ◌↔◌, ◌≢◌, ◌⊎◌, arith,
  Bool-cases, inl, inr, sym, ◌∙◌,
}
use payment_gateway.Base.Action.{Result, ok, err}
use payment_gateway.Base.Int.{
  ℤ, pos, negsuc, ltb_ℤ, add64, sub64, wrap64, IsInt64, ◌≤ℤ◌, ◌<ℤ◌, ◌+ℤ◌, ◌-ℤ◌, wrap64_of_IsInt64,
  IsInt64-cases, eqb_ℤ_iff, +ℤ_parts, -ℤ_parts,
}
use payment_gateway.Money.{
  Money, MoneyError, currency_mismatch, overflow, negative_amount, add, sub, cmp, equal,
  greater_than,
}

-- Equal texts are found equal.
pub text_eq_of : {s t : String} → s ≡ t → text_eq s t ≡ true
text_eq_of {s} {t} e = (text_eq_iff s t).1 e

add64_in_range : (a b : ℤ) → IsInt64 (a +ℤ b) → add64 a b ≡ a +ℤ b
unfolding add64
add64_in_range a b h = wrap64_of_IsInt64 (a +ℤ b) h

-- The overflow test of `Add`, on the amounts.
abbrev pub overflows : ℤ → ℤ → Bool
overflows a b = (ltb_ℤ (pos 0) b && ltb_ℤ (add64 a b) a) || (ltb_ℤ b (pos 0) && ltb_ℤ a (add64 a b))

overflows_above : (a b : ℤ) → IsInt64 a → IsInt64 b → ¬ IsInt64 (a +ℤ b) → overflows a b ≡ true
unfolding add64 wrap64 ◌+ℤ◌
overflows_above (pos a) (pos b) ha hb n = ground arith
overflows_above (pos a) (negsuc b) ha hb n = ground arith
overflows_above (negsuc a) (pos b) ha hb n = ground arith
overflows_above (negsuc a) (negsuc b) ha hb n = ground arith

overflows_within : (a b : ℤ) → IsInt64 (a +ℤ b) → overflows a b ≡ false
overflows_within a b h = rw (add64_in_range a b h) (ground (arith, +ℤ_parts a b))

-- On two int64 amounts of one currency `Add` returns the exact sum when that sum is an int64, and
-- the overflow error, never a wrapped number, when it is not.
pub add_exact_or_overflow :
    (m o : Money)
    → m.currency ≡ o.currency
    → IsInt64 m.amount_minor
    → IsInt64 o.amount_minor
    → (IsInt64 (m.amount_minor +ℤ o.amount_minor)
        → add m o ≡ ok (record m { amount_minor = m.amount_minor +ℤ o.amount_minor }))
      × (¬ IsInt64 (m.amount_minor +ℤ o.amount_minor) → add m o ≡ err overflow)
unfolding add
add_exact_or_overflow m o e hm ho = (
  λ h. rw (
    text_eq_of e,
    overflows_within m.amount_minor o.amount_minor h,
    add64_in_range m.amount_minor o.amount_minor h,
  ),
  λ n. rw (text_eq_of e, overflows_above m.amount_minor o.amount_minor hm ho n),
)

-- `Add`, `Sub` and `Cmp` refuse two currencies, whatever the amounts, and `GreaterThan` and
-- `Equal` answer false.
pub currencies_apart :
    (m o : Money)
    → m.currency ≢ o.currency
    → (add m o ≡ err currency_mismatch)
      × (sub m o ≡ err currency_mismatch)
      × (cmp m o ≡ err currency_mismatch)
      × (greater_than m o ≡ false)
      × (equal m o ≡ false)
unfolding add sub cmp greater_than equal
currencies_apart m o n =
    let f : text_eq m.currency o.currency ≡ false =
      elim (Bool-cases (text_eq m.currency o.currency)) [
        | inl t ↦ absurd (n ((text_eq_iff m.currency o.currency).0 t))
        | inr f ↦ f
      ] in
    (rw f, rw f, rw f, rw (greater_than, f), rw f)

sub64_in_range : (a b : ℤ) → IsInt64 a → pos 0 ≤ℤ b → b ≤ℤ a → sub64 a b ≡ a -ℤ b
unfolding sub64 ◌-ℤ◌
sub64_in_range a b ha hb le = wrap64_of_IsInt64 (a -ℤ b) (ground arith)

pub sub_exact_or_negative :
    (m o : Money)
    → m.currency ≡ o.currency
    → IsInt64 m.amount_minor
    → pos 0 ≤ℤ o.amount_minor
    → (o.amount_minor ≤ℤ m.amount_minor
        → (sub m o ≡ ok (record m { amount_minor = m.amount_minor -ℤ o.amount_minor }))
          × (pos 0 ≤ℤ m.amount_minor -ℤ o.amount_minor))
      × (m.amount_minor <ℤ o.amount_minor → sub m o ≡ err negative_amount)
unfolding sub
sub_exact_or_negative m o e hm ho = (
  λ le. (
    rw (text_eq_of e, sub64_in_range m.amount_minor o.amount_minor hm ho le) (ground arith),
    omega (arith, -ℤ_parts m.amount_minor o.amount_minor),
  ),
  λ lt. rw (text_eq_of e) (ground arith),
)

pub greater_than_iff :
    (m o : Money)
    → m.currency ≡ o.currency
    → (greater_than m o ≡ true) ↔ (o.amount_minor <ℤ m.amount_minor)
unfolding cmp greater_than
greater_than_iff m o e = rw (greater_than, text_eq_of e) (λ h. ground arith, λ h. ground arith)

pub equal_iff : (m o : Money) → (equal m o ≡ true) ↔ (m ≡ o)
unfolding equal
equal_iff m o = (
  λ h. ground (arith, text_eq_iff m.currency o.currency, eqb_ℤ_iff m.amount_minor o.amount_minor),
  λ p. ground (arith, text_eq_iff m.currency o.currency, eqb_ℤ_iff m.amount_minor o.amount_minor),
)

-- `Cmp` answers -1, 0 or 1 as the first amount is below, equal to or above the second, and
-- `GreaterThan` and `Equal` agree with it.
pub cmp_decides :
    (m o : Money)
    → m.currency ≡ o.currency
    → (m.amount_minor <ℤ o.amount_minor → cmp m o ≡ ok (negsuc 0))
      × (m.amount_minor ≡ o.amount_minor → cmp m o ≡ ok (pos 0))
      × (o.amount_minor <ℤ m.amount_minor → cmp m o ≡ ok (pos 1))
      × ((greater_than m o ≡ true) ↔ (o.amount_minor <ℤ m.amount_minor))
      × ((equal m o ≡ true) ↔ (m ≡ o))
unfolding cmp greater_than equal
cmp_decides m o e =
    let t = text_eq_of e in
    (
      λ lt. rw t (ground arith),
      λ q. rw t (ground arith),
      λ gt. rw t (ground arith),
      greater_than_iff m o e,
      equal_iff m o,
    )

true-ne-false : {b : Bool} → b ≡ true → b ≡ false → ⊥
true-ne-false p q = cc

-- What the comparisons answer on one currency.
abbrev pub Compares : Money → Money → Type 0
Compares m o =
    (m.amount_minor <ℤ o.amount_minor → cmp m o ≡ ok (negsuc 0))
    × (m.amount_minor ≡ o.amount_minor → cmp m o ≡ ok (pos 0))
    × (o.amount_minor <ℤ m.amount_minor → cmp m o ≡ ok (pos 1))
    × ((greater_than m o ≡ true) ↔ (o.amount_minor <ℤ m.amount_minor))
    × ((equal m o ≡ true) ↔ (m ≡ o))

-- What is refused on two.
abbrev pub Refuses : Money → Money → Type 0
Refuses m o =
    (add m o ≡ err currency_mismatch)
    × (sub m o ≡ err currency_mismatch)
    × (cmp m o ≡ err currency_mismatch)
    × (greater_than m o ≡ false)
    × (equal m o ≡ false)

-- Two amounts have one currency or not. If they have, `Cmp` answers -1, 0 or 1 as the first amount is
-- below, equal to or above the second, and `GreaterThan` and `Equal` agree with it; if not, `Add`, `Sub`
-- and `Cmp` return the mismatch of currencies, whatever the amounts, and `GreaterThan` and `Equal`
-- answer false.
pub cmp_or_refuse :
    (m o : Money)
    → ((m.currency ≡ o.currency) × Compares m o) ⊎ ((m.currency ≢ o.currency) × Refuses m o)
cmp_or_refuse m o = elim (Bool-cases (text_eq m.currency o.currency)) [
  | inl t ↦ let q = (text_eq_iff m.currency o.currency).0 t in inl (q, cmp_decides m o q)
  | inr f ↦
      let n : m.currency ≢ o.currency = λ q. true-ne-false (text_eq_of q) f in
      inr (n, currencies_apart m o n)
]

-- What a result of `Sub` says of its operands.
pub sub-ok :
    (m o d : Money)
    → IsInt64 m.amount_minor
    → pos 0 ≤ℤ o.amount_minor
    → sub m o ≡ ok d
    → (m.currency ≡ o.currency)
      × (o.amount_minor ≤ℤ m.amount_minor)
      × (d ≡ record m { amount_minor = m.amount_minor -ℤ o.amount_minor })
unfolding sub
sub-ok m o d hm ho e =
    ground (arith, text_eq_iff m.currency o.currency, sub64_in_range m.amount_minor o.amount_minor)

error-ne-ok : {r : Result MoneyError Money} {x : MoneyError} {s : Money} → r ≡ err x → r ≡ ok s → ⊥
error-ne-ok p q = cc

ok_injective : {a b : Money} → ◌≡◌ {A = Result MoneyError Money} (ok a) (ok b) → a ≡ b
ok_injective p = cc

-- What a result of `Add` says of its operands.
pub add-ok :
    (m o s : Money)
    → IsInt64 m.amount_minor
    → IsInt64 o.amount_minor
    → add m o ≡ ok s
    → (m.currency ≡ o.currency)
      × IsInt64 (m.amount_minor +ℤ o.amount_minor)
      × (s ≡ record m { amount_minor = m.amount_minor +ℤ o.amount_minor })
add-ok m o s hm ho e = elim (Bool-cases (text_eq m.currency o.currency)) [
  | inr apart ↦
      absurd (error-ne-ok ((currencies_apart m o (λ q. true-ne-false (text_eq_of q) apart)).0) e)
  | inl same ↦
      let q = (text_eq_iff m.currency o.currency).0 same in
      let exact = add_exact_or_overflow m o q hm ho in
      elim (IsInt64-cases (m.amount_minor +ℤ o.amount_minor)) [
        | inl h ↦ (q, h, ok_injective (sym e ∙ exact.0 h))
        | inr n ↦ absurd (error-ne-ok (exact.1 n) e)
      ]
]

pub le_of_not_greater :
    (m o : Money)
    → m.currency ≡ o.currency
    → greater_than m o ≡ false
    → m.amount_minor ≤ℤ o.amount_minor
le_of_not_greater m o e h = ground (arith, greater_than_iff m o e)
