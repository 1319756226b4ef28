-- ===== src/Ledger/Fee.antt =====
-- internal/ledger/domain/fee.go: the fee of a captured amount, and a fee's share of a refund.
pub mod Bounds
use payment_gateway.Base.{
  ℕ, Bool, true, false, ◌&&◌, ◌||◌, not, text_eq, if◌then◌else◌, ◌*◌, ◌/◌, ◌%◌, ◌+◌, ◌^◌, leb,
}
use payment_gateway.Base.Action.{Result, ok, err, map_err, fail_if, ◌>>=◌, ◌>>◌}
use payment_gateway.Base.Int.{ℤ, pos, ltb_ℤ, pos_part}
use payment_gateway.Money.{Money, validate, mul_bps, add, zero_of}
use payment_gateway.Ledger.Chart.{
  LedgerError, invalid_currency, event_invalid, journal_currency_mismatch, money_overflow,
}

pub record FeePolicy : Type 0 where
  pub fixed_minor : ℤ
  pub percentage_bps : ℤ
  pub min_fee_minor : ℤ
  pub max_fee_minor : ℤ

pub record FeeCalculation : Type 0 where
  pub base : Money
  pub fixed : Money
  pub percentage_part : Money
  pub total : Money
  pub clamped : Bool

-- The three corrections of `Calculate`, on the total and whether it was corrected.
abbrev raise_to_min : ℤ → ℤ × Bool → ℤ × Bool
raise_to_min min (total, clamped) =
    if ltb_ℤ (pos 0) min && ltb_ℤ total min then (min, true) else (total, clamped)

abbrev lower_to_max : ℤ → ℤ × Bool → ℤ × Bool
lower_to_max max (total, clamped) =
    if ltb_ℤ (pos 0) max && ltb_ℤ max total then (max, true) else (total, clamped)

abbrev lower_to_amount : ℤ → ℤ × Bool → ℤ × Bool
lower_to_amount amount (total, clamped) =
    if ltb_ℤ amount total then (amount, true) else (total, clamped)

-- `FeePolicy.Calculate`
unfoldable pub calculate : FeePolicy → Money → Result LedgerError FeeCalculation
calculate p amount = do
  map_err (λ _. invalid_currency) (validate amount)
  fail_if (ltb_ℤ p.fixed_minor (pos 0) || ltb_ℤ p.percentage_bps (pos 0)) event_invalid
  pct ← map_err (λ _. event_invalid) (mul_bps amount p.percentage_bps)
  let fixed : Money = record { amount_minor = p.fixed_minor; currency = amount.currency }
  total ← map_err (λ _. event_invalid) (add fixed pct)
  let (minor, clamped) =
      lower_to_amount amount.amount_minor
        (lower_to_max p.max_fee_minor (raise_to_min p.min_fee_minor (total.amount_minor, false)))
  ok (record {
    base = amount;
    fixed = fixed;
    percentage_part = pct;
    total = record total { amount_minor = minor };
    clamped = clamped;
  })

-- The quotient of `ProRataFee`, over unbounded integers as math/big computes it.
unfoldable pub pro_rata_quotient : ℕ → ℕ → ℕ → ℕ
pro_rata_quotient fee part total =
    let q = fee * part / total in if leb total (fee * part % total * 2) then q + 1 else q

-- `ProRataFee`
unfoldable pub pro_rata_fee : Money → Money → Money → Result LedgerError Money
pro_rata_fee fee part total =
    if not (text_eq fee.currency part.currency) || not (text_eq fee.currency total.currency)
    then err journal_currency_mismatch
    else if not (ltb_ℤ (pos 0) total.amount_minor)
        || not (ltb_ℤ (pos 0) part.amount_minor)
        || not (ltb_ℤ (pos 0) fee.amount_minor)
    then ok (zero_of fee.currency)
    else let capped =
        if ltb_ℤ total.amount_minor part.amount_minor
        then total.amount_minor
        else part.amount_minor in
      let q =
        pro_rata_quotient (pos_part fee.amount_minor) (pos_part capped)
          (pos_part total.amount_minor) in
      if leb (2 ^ 63) q
      then err money_overflow
      else ok (record { amount_minor = pos q; currency = fee.currency })

-- `Policy`
pub record Policy : Type 0 where
  pub refund_chargeback_fee_on_win : Bool
