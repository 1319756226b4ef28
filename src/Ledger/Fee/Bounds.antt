-- ===== src/Ledger/Fee/Bounds.antt =====
-- The bounds of the fees of internal/ledger/domain/fee.go.
use payment_gateway.Base.{
  min, ltb, if◌then◌else◌, text_eq_refl, String, subst, sym, ap, ◌∙◌, ◌≡◌, ◌⊎◌, inl, inr, arith, ℕ,
  false, ◌+◌, ◌*◌, ◌<◌, ◌≤◌, ◌^◌,
}
use native.Mathlib.Decide.{dec_lt}
use payment_gateway.Base.Action.{ok, Result-cases}
use payment_gateway.Base.Int.{ℤ, pos, negsuc, ◌<ℤ◌, ◌≤ℤ◌, ◌+ℤ◌, +ℤ_parts, IsInt64, pos_part}
use payment_gateway.Money
use payment_gateway.Money.{Money, mul_bps, add}
use payment_gateway.Money.Arithmetic.{add-ok}
use payment_gateway.Money.Rounding.{mul_bps-half_up}
use payment_gateway.Ledger.Fee.{
  FeePolicy, FeeCalculation, calculate, pro_rata_quotient, pro_rata_fee, raise_to_min, lower_to_max,
  lower_to_amount,
}

-- A policy whose numbers are int64.
pub record IsPolicy (p : FeePolicy) : Type 0 where
  pub fixed : IsInt64 p.fixed_minor
  pub percentage : IsInt64 p.percentage_bps
  pub min_fee : IsInt64 p.min_fee_minor
  pub max_fee : IsInt64 p.max_fee_minor

-- What the fee of an amount keeps to.
pub record IsFeeOf (p : FeePolicy) (amount : Money) (f : FeeCalculation) : Type 0 where
  pub currency : f.total.currency ≡ amount.currency
  pub nonneg : pos 0 ≤ℤ f.total.amount_minor
  pub le_amount : f.total.amount_minor ≤ℤ amount.amount_minor
  pub le_max : pos 0 <ℤ p.max_fee_minor → f.total.amount_minor ≤ℤ p.max_fee_minor
  pub ge_min :
      pos 0 <ℤ p.min_fee_minor
      → (p.min_fee_minor ≤ℤ f.total.amount_minor)
        ⊎ (f.total.amount_minor ≡ p.max_fee_minor)
        ⊎ (f.total.amount_minor ≡ amount.amount_minor)
  pub unclamped :
      f.clamped ≡ false
      → f.total.amount_minor ≡ f.fixed.amount_minor +ℤ f.percentage_part.amount_minor

-- The three corrections of a total.
corrected :
    (min max amount total : ℤ)
    → pos 0 ≤ℤ total
    → pos 0 ≤ℤ amount
    → let r = lower_to_amount amount (lower_to_max max (raise_to_min min (total, false))) in
      (pos 0 ≤ℤ r.0)
      × (r.0 ≤ℤ amount)
      × (pos 0 <ℤ max → r.0 ≤ℤ max)
      × (pos 0 <ℤ min → (min ≤ℤ r.0) ⊎ (r.0 ≡ max) ⊎ (r.0 ≡ amount))
      × (r.1 ≡ false → r.0 ≡ total)
corrected min max amount total h a = ground arith

-- A share that was computed is an int64 that is not negative.
share :
    (a b : ℕ) (c : String) {s : Money}
    → mul_bps (record { amount_minor = pos a; currency = c }) (pos b) ≡ ok s
    → (s.currency ≡ c) × (pos 0 ≤ℤ s.amount_minor) × IsInt64 s.amount_minor
share a b c {s} e = elim (dec_lt (a * b) (2 ^ 63)) [
  | yes fits ↦ ground (arith, e, (mul_bps-half_up a b c).0 fits)
  | no over ↦ ground (arith, e, (mul_bps-half_up a b c).1 (omega (arith, over)))
]

share_of :
    (a b : ℤ) (c : String) {s : Money}
    → pos 0 ≤ℤ a
    → pos 0 ≤ℤ b
    → mul_bps (record { amount_minor = a; currency = c }) b ≡ ok s
    → (s.currency ≡ c) × (pos 0 ≤ℤ s.amount_minor) × IsInt64 s.amount_minor
share_of (pos a) (pos b) c ha hb e = share a b c e
share_of (negsuc a) b c ha hb e = absurd (omega (arith, ha))
share_of (pos a) (negsuc b) c ha hb e = absurd (omega (arith, hb))

-- The two amounts that a fee is made of.
abbrev Steps : FeePolicy → Money → FeeCalculation → Money → Money → Type 0
Steps p amount f pct total =
    let fixed : Money = record { amount_minor = p.fixed_minor; currency = amount.currency } in
    (mul_bps amount p.percentage_bps ≡ ok pct)
    × (add fixed pct ≡ ok total)
    × (pos 0 ≤ℤ amount.amount_minor)
    × (pos 0 ≤ℤ p.fixed_minor)
    × (pos 0 ≤ℤ p.percentage_bps)
    × (let r = lower_to_amount amount.amount_minor (
          lower_to_max p.max_fee_minor
            (raise_to_min p.min_fee_minor (total.amount_minor, false))) in
        f ≡ record {
          base = amount;
          fixed = fixed;
          percentage_part = pct;
          total = record total { amount_minor = r.0 };
          clamped = r.1;
        })

steps :
    (p : FeePolicy) (amount : Money) {f : FeeCalculation}
    → calculate p amount ≡ ok f
    → (pct : Money) × (total : Money) × Steps p amount f pct total
unfolding calculate Money.validate
steps p amount {f} e =
    let fixed : Money = record { amount_minor = p.fixed_minor; currency = amount.currency } in
    elim (Result-cases (mul_bps amount p.percentage_bps)) [
      | inr (x, bad) ↦ absurd (ground (arith, e, bad))
      | inl (pct, shared) ↦ elim (Result-cases (add fixed pct)) [
        | inr (x, bad) ↦ absurd (ground (arith, e, shared, bad))
        | inl (total, added) ↦ (pct, total, ground (arith, e, shared, added))
      ]
    ]

-- Whenever `Calculate` returns a fee, it is in the amount's currency, between 0 and the amount, at
-- most the policy's maximum where there is one, and at least its minimum unless the maximum or the
-- amount is smaller; an unclamped fee is the fixed part plus the percentage part, exactly.
pub calculate-IsFeeOf :
    (p : FeePolicy) (amount : Money) {f : FeeCalculation}
    → IsPolicy p
    → IsInt64 amount.amount_minor
    → calculate p amount ≡ ok f
    → IsFeeOf p amount f
calculate-IsFeeOf p amount {f} i h e =
    let (pct, total, (shared, added, amount_nonneg, fixed_nonneg, bps_nonneg, made)) =
      steps p amount e in
    let fixed : Money = record { amount_minor = p.fixed_minor; currency = amount.currency } in
    let (cur, pct_nonneg, pct_range) =
      share_of amount.amount_minor p.percentage_bps amount.currency amount_nonneg bps_nonneg
        shared in
    let (_, range, exact) = add-ok fixed pct total i.fixed pct_range added in
    let total_nonneg : pos 0 ≤ℤ total.amount_minor =
      ground (arith, exact, fixed_nonneg, pct_nonneg, +ℤ_parts p.fixed_minor pct.amount_minor) in
    let c =
      corrected p.min_fee_minor p.max_fee_minor amount.amount_minor total.amount_minor total_nonneg
        amount_nonneg in
    subst (IsFeeOf p amount) (sym made) (record {
      currency = ap (λ m. m.currency) exact;
      nonneg = c.0;
      le_amount = c.1;
      le_max = c.2;
      ge_min = c.3;
      unclamped = λ u. c.4 u ∙ ap (λ m. m.amount_minor) exact;
    })

quotient_half_up :
    (fee part total : ℕ)
    → 0 < total
    → let q = pro_rata_quotient fee part total in
      (q * total * 2 ≤ fee * part * 2 + total) × (fee * part * 2 + total < (q + 1) * total * 2)
unfolding pro_rata_quotient
quotient_half_up fee part total h = grind arith

quotient-le :
    (fee part total : ℕ) → 0 < total → part ≤ total → pro_rata_quotient fee part total ≤ fee
quotient-le fee part total h le =
    let bound = (quotient_half_up fee part total h).0 in
    let scaled : fee * part ≤ fee * total = grind arith in grind (arith, bound, scaled)

capped_min :
    (part total : ℕ)
    → pos_part (if ltb (total + 0) (part + 0) then pos total else pos part) ≡ min part total
capped_min part total = ground arith

-- For a fee, a part and a total in one currency, all positive and the fee an int64, `ProRataFee`
-- never overflows: with the part cut at the total it returns the share fee · part / total rounded
-- half up, which is never above the fee.
pub pro_rata_fee_half_up :
    (fee part total : ℕ) (c : String)
    → 0 < fee
    → fee < 2 ^ 63
    → 0 < part
    → 0 < total
    → let m : ℕ → Money = λ n. record { amount_minor = pos n; currency = c } in
      (q : ℕ) × (pro_rata_fee (m fee) (m part) (m total) ≡ ok (m q))
      × (q ≤ fee)
      × (q * total * 2 ≤ fee * min part total * 2 + total)
      × (fee * min part total * 2 + total < (q + 1) * total * 2)
unfolding pro_rata_fee
pro_rata_fee_half_up fee part total c hf range hp ht =
    let capped = min part total in
    let q = pro_rata_quotient fee capped total in
    let le = quotient-le fee capped total ht (omega arith) in
    let half = quotient_half_up fee capped total ht in
    (q, rw (text_eq_refl c, capped_min part total) (ground (arith, le, range)), le, half.0, half.1)
