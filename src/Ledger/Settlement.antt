-- ===== src/Ledger/Settlement.antt =====
-- internal/ledger/domain/template.go: the journal of a settlement.
pub mod Posts
use payment_gateway.Ledger.Posting.{
  base_journal, check_event, entry, require_dispute, require_provider, require_refund, validated,
}
use payment_gateway.Base.{
  ℕ, String, Bool, true, false, Option, none, some, List, [], ◌∷◌, ◌++◌, ◌==◌, ◌&&◌, ◌||◌, not,
  text_eq, concat, if◌then◌else◌,
}
use payment_gateway.Base.Action.{Result, ok, err, map_err, fail_if, ◌>>=◌, ◌>>◌}
use payment_gateway.Base.Int.{ℤ, pos, ltb_ℤ}
use payment_gateway.Ids.{nil_uuid}
use payment_gateway.Money
use payment_gateway.Money.{Money}
use payment_gateway.Ledger.Account.{
  AccountKey, psp_receivable_key, merchant_payable_key, fee_revenue_key, refund_clearing_key,
  chargeback_reserve_key, chargeback_fee_revenue_key, bank_cash_key, psp_fee_expense_key,
}
use payment_gateway.Ledger.Chart.{
  Kind, code_for, LedgerError, event_invalid, fee_exceeds_amount, no_template,
  journal_currency_mismatch, journal_unbalanced,
}
use payment_gateway.Ledger.Journal.{Journal, Entry, Direction, ReferenceType, SourceType, validate}
use payment_gateway.Ledger.Event.{PaymentEvent, EventType, has_fee, SettlementPosted}
use payment_gateway.Ledger.Fee.{Policy}

abbrev same_currencies : SettlementPosted → Bool
same_currencies s =
    text_eq s.gross.currency s.psp_fees.currency && text_eq s.gross.currency s.net_paid.currency

-- The entries of J-STL.
abbrev pub settlement_entries : SettlementPosted → List Entry
settlement_entries s =
    let cur = s.gross.currency in
    let live = s.livemode in
    (if Money.is_positive s.net_paid
      then entry (bank_cash_key s.bank_account cur live) Direction.debit s.net_paid
          "settlement net paid"
        ∷ []
      else [])
    ++ ((if Money.is_positive s.psp_fees
          then entry (psp_fee_expense_key s.provider cur live) Direction.debit s.psp_fees "PSP fees"
            ∷ []
          else [])
        ++ (entry (psp_receivable_key s.provider cur live) Direction.credit s.gross
              "settlement gross"
            ∷ []))

-- The journal that `SettlementTemplate` builds.
unfoldable pub settlement_journal : SettlementPosted → Journal
settlement_journal s = record {
  id = nil_uuid;
  public_id = "";
  event_id = s.event_id;
  merchant_id = nil_uuid;
  livemode = s.livemode;
  source_type = SourceType.reconciliation_adjustment;
  source_id = s.settlement_id;
  reference_type = ReferenceType.settlement;
  reference_id = s.settlement_id;
  description = concat "Settlement " (concat s.settlement_id (concat " from " s.provider));
  template = "J-STL";
  reversal_of = none;
  reversed_by = none;
  effective_at = s.occurred_at;
  posted_at = s.occurred_at;
  metadata = ("provider", s.provider) ∷ [];
  entries = settlement_entries s;
}

-- `SettlementTemplate`
unfoldable pub settlement_template : SettlementPosted → Result LedgerError Journal
unfolding settlement_journal
settlement_template s = do
  fail_if
      (s.event_id == nil_uuid
        || text_eq s.settlement_id ""
        || text_eq s.provider ""
        || text_eq s.bank_account "")
      event_invalid
  map_err (λ _. event_invalid) (Money.validate s.gross)
  map_err (λ _. event_invalid) (Money.validate s.psp_fees)
  map_err (λ _. event_invalid) (Money.validate s.net_paid)
  fail_if (not (same_currencies s)) journal_currency_mismatch
  sum ← map_err (λ _. event_invalid) (Money.add s.net_paid s.psp_fees)
  fail_if (not (Money.equal sum s.gross)) journal_unbalanced
  fail_if (not (Money.is_positive s.gross)) event_invalid
  validated (settlement_journal s)
