-- ===== src/Ledger/Template.antt =====
-- internal/ledger/domain/template.go: the journal of each payment event.
pub mod Complete
pub mod Pairs
pub mod Capture
pub mod Posts
use payment_gateway.Ledger.Posting.{
  base_journal, check_event, entry, require_dispute, require_provider, require_refund, validated,
}
use payment_gateway.Base.{
  ℕ, String, Bool, true, false, Option, none, some, List, [], ◌∷◌, ◌++◌, ◌==◌, ◌&&◌, ◌||◌, not,
  text_eq, concat, if◌then◌else◌,
}
use payment_gateway.Base.Action.{Result, ok, err, map_err, fail_if, ◌>>=◌, ◌>>◌}
use payment_gateway.Base.Int.{ℤ, pos, ltb_ℤ}
use payment_gateway.Ids.{nil_uuid}
use payment_gateway.Money
use payment_gateway.Money.{Money}
use payment_gateway.Ledger.Account.{
  AccountKey, psp_receivable_key, merchant_payable_key, fee_revenue_key, refund_clearing_key,
  chargeback_reserve_key, chargeback_fee_revenue_key, bank_cash_key, psp_fee_expense_key,
}
use payment_gateway.Ledger.Chart.{
  Kind, code_for, LedgerError, event_invalid, fee_exceeds_amount, no_template,
  journal_currency_mismatch, journal_unbalanced,
}
use payment_gateway.Ledger.Journal.{Journal, Entry, Direction, ReferenceType, SourceType, validate}
use payment_gateway.Ledger.Event.{PaymentEvent, EventType, has_fee, SettlementPosted}
use payment_gateway.Ledger.Fee.{Policy}

abbrev pub capture_fee : PaymentEvent → Money
capture_fee ev = if has_fee ev then ev.fee else Money.zero_of ev.amount.currency

-- The entries of J-CAP, from the fee and the net amount.
abbrev pub capture_entries : PaymentEvent → Money → Money → List Entry
capture_entries ev fee net =
    let cur = ev.amount.currency in
    let live = ev.livemode in
    entry (psp_receivable_key ev.provider cur live) Direction.debit ev.amount "captured gross"
    ∷ ((if Money.is_positive net
          then entry (merchant_payable_key ev.merchant_id cur live) Direction.credit net
              "captured net of fee"
            ∷ []
          else [])
        ++ (if Money.is_positive fee
            then entry (fee_revenue_key cur live) Direction.credit fee "platform fee" ∷ []
            else []))

-- `templateCapture`
unfoldable pub template_capture : PaymentEvent → Result LedgerError Journal
unfolding require_provider check_event base_journal
template_capture ev = do
  require_provider ev
  check_event ev
  let fee = capture_fee ev
  fail_if (ltb_ℤ ev.amount.amount_minor fee.amount_minor) fee_exceeds_amount
  net ← map_err (λ _. event_invalid) (Money.sub ev.amount fee)
  validated (
      base_journal ev "J-CAP" ReferenceType.payment ev.payment_id (concat "Capture " ev.payment_id)
        (capture_entries ev fee net))

-- `templateRefundPending`
unfoldable pub template_refund_pending : PaymentEvent → Result LedgerError Journal
unfolding check_event base_journal
template_refund_pending ev = do
  require_refund ev
  check_event ev
  let cur = ev.amount.currency
  let live = ev.livemode
  validated (
      base_journal ev "J-REF-PEND" ReferenceType.refund ev.refund_id
        (concat "Refund pending " ev.refund_id)
        (entry (merchant_payable_key ev.merchant_id cur live) Direction.debit ev.amount
            "refund reserved from merchant balance"
          ∷ entry (refund_clearing_key ev.merchant_id cur live) Direction.credit ev.amount
              "refund awaiting PSP confirmation"
          ∷ []))

-- `templateRefundSucceeded`
unfoldable pub template_refund_succeeded : PaymentEvent → Result LedgerError Journal
unfolding require_provider check_event base_journal
template_refund_succeeded ev = do
  require_refund ev
  require_provider ev
  check_event ev
  let cur = ev.amount.currency
  let live = ev.livemode
  validated (
      base_journal ev "J-REF-OK" ReferenceType.refund ev.refund_id
        (concat "Refund succeeded " ev.refund_id)
        (entry (refund_clearing_key ev.merchant_id cur live) Direction.debit ev.amount
            "refund cleared"
          ∷ entry (psp_receivable_key ev.provider cur live) Direction.credit ev.amount
              "refund deducted from PSP receivable"
          ∷ (if has_fee ev
              then entry (merchant_payable_key ev.merchant_id cur live) Direction.debit ev.fee
                  "J-REF-FEE: refund fee"
                ∷ entry (fee_revenue_key cur live) Direction.credit ev.fee
                    "J-REF-FEE: refund fee revenue"
                ∷ []
              else [])))

-- `templateRefundFailed`
unfoldable pub template_refund_failed : PaymentEvent → Result LedgerError Journal
unfolding check_event base_journal
template_refund_failed ev = do
  require_refund ev
  check_event ev
  let cur = ev.amount.currency
  let live = ev.livemode
  validated (
      base_journal ev "J-REF-FAIL" ReferenceType.refund ev.refund_id
        (concat "Refund failed " ev.refund_id)
        (entry (refund_clearing_key ev.merchant_id cur live) Direction.debit ev.amount
            "refund clearing released"
          ∷ entry (merchant_payable_key ev.merchant_id cur live) Direction.credit ev.amount
              "refund returned to merchant balance"
          ∷ []))

-- `templateDisputeOpened`
unfoldable pub template_dispute_opened : PaymentEvent → Result LedgerError Journal
unfolding check_event base_journal
template_dispute_opened ev = do
  require_dispute ev
  check_event ev
  let cur = ev.amount.currency
  let live = ev.livemode
  validated (
      base_journal ev "J-CB-OPEN" ReferenceType.dispute ev.dispute_id
        (concat "Dispute opened " ev.dispute_id)
        (entry (merchant_payable_key ev.merchant_id cur live) Direction.debit ev.amount
            "disputed amount withheld"
          ∷ entry (chargeback_reserve_key ev.merchant_id cur live) Direction.credit ev.amount
              "chargeback reserve"
          ∷ (if has_fee ev
              then entry (merchant_payable_key ev.merchant_id cur live) Direction.debit ev.fee
                  "chargeback fee charged"
                ∷ entry (chargeback_fee_revenue_key cur live) Direction.credit ev.fee
                    "chargeback fee revenue"
                ∷ []
              else [])))

-- `templateDisputeLost`
unfoldable pub template_dispute_lost : PaymentEvent → Result LedgerError Journal
unfolding require_provider check_event base_journal
template_dispute_lost ev = do
  require_dispute ev
  require_provider ev
  check_event ev
  let cur = ev.amount.currency
  let live = ev.livemode
  validated (
      base_journal ev "J-CB-LOST" ReferenceType.dispute ev.dispute_id
        (concat "Dispute lost " ev.dispute_id)
        (entry (chargeback_reserve_key ev.merchant_id cur live) Direction.debit ev.amount
            "reserve consumed by chargeback"
          ∷ entry (psp_receivable_key ev.provider cur live) Direction.credit ev.amount
              "chargeback deducted by PSP"
          ∷ []))

-- `templateDisputeWon`
unfoldable pub template_dispute_won : PaymentEvent → Policy → Result LedgerError Journal
unfolding check_event base_journal
template_dispute_won ev pol = do
  require_dispute ev
  check_event ev
  let cur = ev.amount.currency
  let live = ev.livemode
  validated (
      base_journal ev "J-CB-WON" ReferenceType.dispute ev.dispute_id
        (concat "Dispute won " ev.dispute_id)
        (entry (chargeback_reserve_key ev.merchant_id cur live) Direction.debit ev.amount
            "reserve released"
          ∷ entry (merchant_payable_key ev.merchant_id cur live) Direction.credit ev.amount
              "disputed amount returned to merchant"
          ∷ (if pol.refund_chargeback_fee_on_win && has_fee ev
              then entry (chargeback_fee_revenue_key cur live) Direction.debit ev.fee
                  "J-CB-WON-FEE: chargeback fee refunded"
                ∷ entry (merchant_payable_key ev.merchant_id cur live) Direction.credit ev.fee
                    "J-CB-WON-FEE: chargeback fee returned"
                ∷ []
              else [])))

abbrev pub by_type : EventType → PaymentEvent → Policy → Result LedgerError Journal
by_type EventType.payment_captured ev pol = template_capture ev
by_type EventType.refund_created ev pol = template_refund_pending ev
by_type EventType.refund_succeeded ev pol = template_refund_succeeded ev
by_type EventType.refund_failed ev pol = template_refund_failed ev
by_type EventType.dispute_opened ev pol = template_dispute_opened ev
by_type EventType.dispute_lost ev pol = template_dispute_lost ev
by_type EventType.dispute_won ev pol = template_dispute_won ev pol
by_type _ ev pol = err no_template

-- `TemplateFor`
unfoldable pub template_for : PaymentEvent → Policy → Result LedgerError Journal
template_for ev pol = by_type ev.event_type ev pol
