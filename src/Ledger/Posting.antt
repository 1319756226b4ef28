-- ===== src/Ledger/Posting.antt =====
-- internal/ledger/domain/template.go: what every template checks and fills in.
use payment_gateway.Base.{String, none, List, [], ◌∷◌, ◌==◌, ◌&&◌, not, text_eq, if◌then◌else◌}
use payment_gateway.Base.Action.{Result, ok, map_err, fail_if, ◌>>=◌, ◌>>◌}
use payment_gateway.Base.Int.{pos, ltb_ℤ}
use payment_gateway.Ids.{nil_uuid}
use payment_gateway.Money
use payment_gateway.Money.{Money}
use payment_gateway.Ledger.Account.{AccountKey}
use payment_gateway.Ledger.Chart.{Kind, code_for, LedgerError, event_invalid}
use payment_gateway.Ledger.Journal.{Journal, Entry, Direction, ReferenceType, SourceType, validate}
use payment_gateway.Ledger.Event.{PaymentEvent, has_fee}

-- The guards of `baseJournal`.
unfoldable pub check_event : PaymentEvent → Result LedgerError (Unit {0})
check_event ev = do
  fail_if (ev.event_id == nil_uuid) event_invalid
  fail_if (ev.merchant_id == nil_uuid) event_invalid
  fail_if (text_eq ev.payment_id "") event_invalid
  map_err (λ _. event_invalid) (Money.validate ev.amount)
  fail_if (not (Money.is_positive ev.amount)) event_invalid
  fail_if (ltb_ℤ ev.fee.amount_minor (pos 0)) event_invalid
  fail_if (has_fee ev && not (text_eq ev.fee.currency ev.amount.currency)) event_invalid

-- The journal that `baseJournal` fills, with its entries.
unfoldable pub base_journal :
    PaymentEvent → String → ReferenceType → String → String → List Entry → Journal
base_journal ev template ref ref_id description entries = record {
  id = nil_uuid;
  public_id = "";
  event_id = ev.event_id;
  merchant_id = ev.merchant_id;
  livemode = ev.livemode;
  source_type = SourceType.payment_event;
  source_id = ev.event_public_id;
  reference_type = ref;
  reference_id = ref_id;
  description = description;
  template = template;
  reversal_of = none;
  reversed_by = none;
  effective_at = ev.occurred_at;
  posted_at = ev.occurred_at;
  metadata =
      ("payment_id", ev.payment_id)
      ∷ (if not (text_eq ev.provider "") then ("provider", ev.provider) ∷ [] else []);
  entries = entries;
}

-- `requireProvider`
unfoldable pub require_provider : PaymentEvent → Result LedgerError (Unit {0})
require_provider ev = do
  fail_if (text_eq ev.provider "") event_invalid
  _ ← map_err (λ _. event_invalid) (code_for Kind.psp_receivable ev.provider)
  ok tt

-- `requireRefund`
abbrev pub require_refund : PaymentEvent → Result LedgerError (Unit {0})
require_refund ev = fail_if (text_eq ev.refund_id "") event_invalid

-- `requireDispute`
abbrev pub require_dispute : PaymentEvent → Result LedgerError (Unit {0})
require_dispute ev = fail_if (text_eq ev.dispute_id "") event_invalid

-- `entry`
abbrev pub entry : AccountKey → Direction → Money → String → Entry
entry acct dir amt desc = record {
  id = nil_uuid;
  account_id = nil_uuid;
  account = acct;
  direction = dir;
  amount = amt;
  description = desc;
  created_at = 0;
}

-- `j.Validate()`, and the journal.
abbrev pub validated : Journal → Result LedgerError Journal
validated j = do validate j; ok j
