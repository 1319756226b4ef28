-- ===== src/Ledger/Examples.antt =====
-- The ledger's theorems at the journal of one capture.
use payment_gateway.Base.{
  ◌^◌, ◌-◌, subst, sym, ◌≡◌, ◌↔◌, refl, arith, some, map, min, ◌*◌, ◌+◌, ◌<◌, ◌≤◌, true, false, [],
  ◌∷◌, ℕ, All, text_eq_iff,
}
use payment_gateway.Base.Action.{ok}
use payment_gateway.Ledger.Balances.{Balances, balance_of, apply}
use payment_gateway.Ledger.Balances.Undo.{reversal_restores}
use payment_gateway.Base.Int.{
  IsInt64, pos, sub64, wrap64, ◌-ℤ◌, add64, ◌+ℤ◌, quot64, mul64, ◌*ℤ◌, rem64,
}
use payment_gateway.Money
use payment_gateway.Money.{Money}
use payment_gateway.Money.Currency.{is_supported_currency}
use payment_gateway.Ledger.Account.{
  AccountKey, is_system, key_eq, validate_key, merchant_payable_key, psp_receivable_key,
}
use payment_gateway.Ledger.Chart.{
  Kind, code_for, parse_code, storage_code, parse_storage_code, is_qualifier,
}
use payment_gateway.Ledger.Account.Codes.{code_for-restored}
use payment_gateway.Ledger.Event.{PaymentEvent, EventType, SettlementPosted}
use payment_gateway.Ledger.Journal.{Journal, Direction, ReferenceType, validate}
use payment_gateway.Ledger.Journal.Sound.{IsSound, HasInt64Amount, debit_sum, credit_sum}
use payment_gateway.Ledger.Journal.Validate.{validate_iff, IsSound-of_validate}
use payment_gateway.Ledger.Reversal.{reverse, mirror, reversal_journal, validate_reversal}
use payment_gateway.Ledger.Reversal.Mirror.{reverse-IsSound}
use payment_gateway.Ledger.Reversal.Check.{IsReversalOf, validate_reversal_iff}
use payment_gateway.Ledger.Reversal.Accepted.{validate_reversal-reverse}
use payment_gateway.Ledger.Fee.{FeePolicy, FeeCalculation, calculate, pro_rata_fee}
use payment_gateway.Ledger.Fee.Bounds
use payment_gateway.Ledger.Fee.Bounds.{IsPolicy, calculate-IsFeeOf, pro_rata_fee_half_up}
use payment_gateway.Ledger.Template.{template_for}
use payment_gateway.Ledger.Posting.{base_journal, entry}
use payment_gateway.Ledger.Settlement.{settlement_template, settlement_journal}
use payment_gateway.Ledger.Template.Complete.{IsComplete, HasProvider, Posts}
use payment_gateway.Ledger.Settlement.Posts.{IsSettlement, PostsTo, settlement_template-IsSound}
use payment_gateway.Ledger.Template.Posts.{template_for-Posts}

abbrev usd : ℕ → Money
usd n = record { amount_minor = pos n; currency = "USD" }

stripe_code : code_for Kind.psp_receivable "stripe" ≡ ok "psp_receivable:stripe"
unfolding code_for is_qualifier
stripe_code = refl

code_for-restored_example :
    (parse_code "psp_receivable:stripe" ≡ ok (Kind.psp_receivable, "stripe"))
    × (parse_storage_code (storage_code "psp_receivable:stripe" false)
        ≡ ("psp_receivable:stripe", false))
code_for-restored_example = code_for-restored Kind.psp_receivable "stripe" false stripe_code

abbrev captured : PaymentEvent
captured = record {
  event_id = 11;
  event_public_id = "evt_1";
  event_type = EventType.payment_captured;
  occurred_at = 5;
  merchant_id = 3;
  merchant_public_id = "mch_1";
  payment_id = "pay_1";
  livemode = true;
  payment_version = 3;
  provider = "stripe";
  amount = usd 10000;
  fee = usd 320;
  refund_id = "";
  dispute_id = "";
}

captured-IsComplete : IsComplete captured
unfolding is_supported_currency
captured-IsComplete = record {
  event_id = λ e. omega arith;
  merchant_id = λ e. omega arith;
  payment_id = λ e. ground (arith, (text_eq_iff captured.payment_id "").1 e);
  supported = refl;
  positive = omega arith;
  fee_nonneg = omega arith;
  fee_currency = λ h. refl;
  bounded = omega arith;
}

captured-HasProvider : HasProvider captured
unfolding is_qualifier
captured-HasProvider = refl

template_for-Posts_example :
    Posts captured (template_for captured (record { refund_chargeback_fee_on_win = false }))
template_for-Posts_example =
    template_for-Posts captured (record { refund_chargeback_fee_on_win = false })
      captured-IsComplete (captured-HasProvider, omega arith)

-- A journal of two sides that differ.
abbrev lopsided : Journal
unfolding base_journal
lopsided = base_journal captured "J-CAP" ReferenceType.payment "pay_1" "" (
    entry (psp_receivable_key "stripe" "USD" true) Direction.debit (usd 100) ""
    ∷ entry (merchant_payable_key 3 "USD" true) Direction.credit (usd 99) ""
    ∷ [])

lopsided-HasInt64 : All HasInt64Amount lopsided.entries
unfolding lopsided
lopsided-HasInt64 = ground arith

validate_iff_example : (validate lopsided ≡ ok tt) ↔ IsSound lopsided
validate_iff_example = validate_iff lopsided lopsided-HasInt64

-- A saved journal of 100 from the merchant to the provider.
abbrev saved : Journal
unfolding base_journal
saved =
    record (base_journal captured "J-CAP" ReferenceType.payment "pay_1" "" (
      entry (psp_receivable_key "stripe" "USD" true) Direction.debit (usd 100) ""
      ∷ entry (merchant_payable_key 3 "USD" true) Direction.credit (usd 100) ""
      ∷ [])) { id = 9; public_id = "jrn_1" }

saved-HasInt64 : All HasInt64Amount saved.entries
unfolding saved
saved-HasInt64 = ground arith

saved_ok : validate saved ≡ ok tt
unfolding validate saved Money.validate is_supported_currency validate_key parse_code is_qualifier
    sub64 wrap64 ◌-ℤ◌ add64 ◌+ℤ◌
saved_ok = refl

reverse-IsSound_example :
    (rev : Journal) × (reverse (some saved) 12 "" 6 ≡ ok rev)
    × IsSound rev
    × (rev.reversal_of ≡ some saved.id)
    × (rev.merchant_id ≡ saved.merchant_id)
    × (rev.livemode ≡ saved.livemode)
    × (rev.entries ≡ map mirror saved.entries)
    × (debit_sum rev.entries ≡ credit_sum saved.entries)
    × (credit_sum rev.entries ≡ debit_sum saved.entries)
unfolding saved
reverse-IsSound_example =
    reverse-IsSound saved 12 "" 6 (IsSound-of_validate saved saved-HasInt64 saved_ok)
      (λ e. omega arith) (λ e. omega arith) refl

-- The same entries in the other order.
abbrev shuffled : Journal
unfolding saved reversal_journal
shuffled = record (reversal_journal saved 12 "" 6) {
  entries =
      entry (merchant_payable_key 3 "USD" true) Direction.debit (usd 100) ""
      ∷ entry (psp_receivable_key "stripe" "USD" true) Direction.credit (usd 100) ""
      ∷ [];
}

validate_reversal_iff_example :
    (validate_reversal (some saved) shuffled ≡ ok tt) ↔ IsReversalOf saved shuffled
validate_reversal_iff_example = validate_reversal_iff saved shuffled

saved_reversed : reverse (some saved) 12 "" 6 ≡ ok (reversal_journal saved 12 "" 6)
unfolding reverse saved validate Money.validate is_supported_currency validate_key parse_code
    is_qualifier sub64 wrap64 ◌-ℤ◌ add64 ◌+ℤ◌
saved_reversed = refl

validate_reversal-reverse_example :
    validate_reversal (some saved) (reversal_journal saved 12 "" 6) ≡ ok tt
validate_reversal-reverse_example = validate_reversal-reverse saved 12 "" 6 saved_reversed

-- 2.9 % and 0.30, at least 0.50 and at most 20.00.
abbrev policy : FeePolicy
policy = record {
  fixed_minor = pos 30;
  percentage_bps = pos 290;
  min_fee_minor = pos 50;
  max_fee_minor = pos 2000;
}

abbrev fee : FeeCalculation
fee = record {
  base = usd 10000;
  fixed = usd 30;
  percentage_part = usd 290;
  total = usd 320;
  clamped = false;
}

policy-IsPolicy : IsPolicy policy
policy-IsPolicy = ground arith

policy_fee : calculate policy (usd 10000) ≡ ok fee
unfolding calculate Money.validate is_supported_currency Money.mul_bps quot64 Money.add
    Money.round_bps mul64 wrap64 ◌*ℤ◌ rem64 add64 ◌+ℤ◌
policy_fee = refl

calculate-IsFeeOf_example : Bounds.IsFeeOf policy (usd 10000) fee
calculate-IsFeeOf_example =
    calculate-IsFeeOf policy (usd 10000) policy-IsPolicy (omega arith, omega arith) policy_fee

pro_rata_fee_half_up_example :
    (q : ℕ) × (pro_rata_fee (usd 320) (usd 2500) (usd 10000) ≡ ok (usd q))
    × (q ≤ 320)
    × (q * 10000 * 2 ≤ 320 * min 2500 10000 * 2 + 10000)
    × (320 * min 2500 10000 * 2 + 10000 < (q + 1) * 10000 * 2)
pro_rata_fee_half_up_example =
    pro_rata_fee_half_up 320 2500 10000 "USD" (omega arith) (omega arith) (omega arith)
      (omega arith)

-- A payable balance just below the top of int64, which wraps around and comes back.
abbrev payable : AccountKey
payable = merchant_payable_key 3 "USD" true

abbrev balances : Balances
balances = (payable, pos (2 ^ 63 - 1)) ∷ []

payable_balance : balance_of balances payable ≡ pos (2 ^ 63 - 1)
unfolding balance_of key_eq
payable_balance = refl

reversal_restores_example :
    let first = apply saved balances in
    let second = apply (reversal_journal saved 12 "" 6) first.1 in
    (first.0 ≡ ok tt)
    × (second.0 ≡ ok tt)
    × (balance_of second.1 payable ≡ balance_of balances payable)
reversal_restores_example =
    reversal_restores saved 12 "" 6 balances payable
      (IsSound-of_validate saved saved-HasInt64 saved_ok) saved-HasInt64 (λ e. omega arith)
      (subst IsInt64 (sym payable_balance) (omega arith, omega arith))

abbrev settled : SettlementPosted
settled = record {
  event_id = 14;
  settlement_id = "stl_1";
  provider = "stripe";
  bank_account = "main";
  livemode = true;
  occurred_at = 7;
  gross = usd 10000;
  psp_fees = usd 290;
  net_paid = usd 9710;
}

settled-IsSettlement : IsSettlement settled
unfolding is_supported_currency is_qualifier
settled-IsSettlement = record {
  event_id = λ e. omega arith;
  settlement_id = λ e. ground (arith, (text_eq_iff "stl_1" "").1 e);
  provider = refl;
  bank = refl;
  supported = refl;
  fees_currency = refl;
  net_currency = refl;
  positive = omega arith;
  fees_nonneg = omega arith;
  net_nonneg = omega arith;
  adds_up = refl;
  bounded = omega arith;
}

settlement_template-IsSound_example :
    (settlement_template settled ≡ ok (settlement_journal settled))
    × IsSound (settlement_journal settled)
    × (debit_sum (settlement_journal settled).entries ≡ 10000)
    × All (λ e. is_system e.account ≡ true) (settlement_journal settled).entries
    × PostsTo settled (settlement_journal settled).entries
settlement_template-IsSound_example = settlement_template-IsSound settled settled-IsSettlement
