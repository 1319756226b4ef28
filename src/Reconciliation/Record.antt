-- ===== src/Reconciliation/Record.antt =====
-- internal/reconciliation/domain/payment_record.go: what the gateway knows of payments, refunds and
-- disputes, projected from the payment service's events.
use payment_gateway.Base.{ℕ, String, Bool, false, Option, none, some, List, [], ◌∷◌, ◌||◌, text_eq}
use payment_gateway.Base.Clock.{Time}
use payment_gateway.Ids.{Uuid}
use payment_gateway.Money.{Money}
use payment_gateway.Reconciliation.Settlement.{LineType, MatchKey}

pub data RecordKind : Type 0 where
  payment refund dispute other : RecordKind

abbrev pub kind_text : RecordKind → String
kind_text RecordKind.payment = "payment"
kind_text RecordKind.refund = "refund"
kind_text RecordKind.dispute = "dispute"
kind_text RecordKind.other = ""

-- `RecordKind.LineType`
abbrev pub kind_line_type : RecordKind → LineType
kind_line_type RecordKind.payment = LineType.payment
kind_line_type RecordKind.refund = LineType.refund
kind_line_type RecordKind.dispute = LineType.chargeback
kind_line_type RecordKind.other = LineType.other

-- `RecordKindForLine`
abbrev pub record_kind_for_line : LineType → Option RecordKind
record_kind_for_line LineType.payment = some RecordKind.payment
record_kind_for_line LineType.refund = some RecordKind.refund
record_kind_for_line LineType.chargeback = some RecordKind.dispute
record_kind_for_line LineType.fee = none
record_kind_for_line LineType.adjustment = none
record_kind_for_line LineType.other = none

-- The statuses, as the payment service spells them.
abbrev pub status_authorized : String
status_authorized = "authorized"

abbrev pub status_captured : String
status_captured = "captured"

abbrev pub status_voided : String
status_voided = "voided"

abbrev pub refund_pending : String
refund_pending = "pending"

abbrev pub refund_succeeded : String
refund_succeeded = "succeeded"

abbrev pub refund_failed : String
refund_failed = "failed"

abbrev pub dispute_open : String
dispute_open = "open"

abbrev pub dispute_won : String
dispute_won = "won"

abbrev pub dispute_lost : String
dispute_lost = "lost"

-- A fee of `none` is a nil pointer: not known.
pub record PaymentRecord : Type 0 where
  pub id : Uuid
  pub kind : RecordKind
  pub public_id : String
  pub merchant_id : Uuid
  pub provider : String
  pub provider_reference : String
  pub amount : Money
  pub fee : Option Money
  pub status : String
  pub occurred_at : Time
  pub source_seq : ℕ
  pub created_at : Time
  pub updated_at : Time

-- `SettleableStatuses`
unfoldable pub settleable_statuses : RecordKind → List String
settleable_statuses RecordKind.payment =
    "captured" ∷ "partially_refunded" ∷ "refunded" ∷ "disputed" ∷ "chargeback_won"
    ∷ "chargeback_lost" ∷ []
settleable_statuses RecordKind.refund = "succeeded" ∷ []
settleable_statuses RecordKind.dispute = "lost" ∷ []
settleable_statuses RecordKind.other = []

-- The `switch` of `IsSettleable`.
unfoldable pub settles : RecordKind → String → Bool
settles RecordKind.payment status =
    text_eq status "captured"
    || text_eq status "partially_refunded"
    || text_eq status "refunded"
    || text_eq status "disputed"
    || text_eq status "chargeback_won"
    || text_eq status "chargeback_lost"
settles RecordKind.refund status = text_eq status "succeeded"
settles RecordKind.dispute status = text_eq status "lost"
settles RecordKind.other status = false

-- `IsSettleable`
unfoldable pub is_settleable : PaymentRecord → Bool
unfolding settles
is_settleable r = settles r.kind r.status

-- `PaymentRecord.Key`
abbrev pub record_key : PaymentRecord → MatchKey
record_key r = record {
  provider_reference = r.provider_reference;
  line_type = kind_line_type r.kind;
}
