-- ===== src/Ledger/Event.antt =====
-- internal/ledger/domain/event.go: the payment and settlement events that the ledger posts.
use payment_gateway.Base.{ℕ, String, Bool}
use payment_gateway.Base.Int.{ltb_ℤ, pos}
use payment_gateway.Base.Clock.{Time}
use payment_gateway.Ids.{Uuid}
use payment_gateway.Money.{Money}

-- A string that is none of the constants is `other`.
pub data EventType : Type 0 where
  payment_created payment_requires_action payment_authorized payment_captured : EventType
  payment_voided payment_failed payment_expired refund_created refund_succeeded : EventType
  refund_failed dispute_opened dispute_evidence_submitted dispute_won dispute_lost : EventType
  other : String → EventType

pub record PaymentEvent : Type 0 where
  pub event_id : Uuid
  pub event_public_id : String
  pub event_type : EventType
  pub occurred_at : Time
  pub merchant_id : Uuid
  pub merchant_public_id : String
  pub payment_id : String
  pub livemode : Bool
  pub payment_version : ℕ
  pub provider : String
  pub amount : Money
  pub fee : Money
  pub refund_id : String
  pub dispute_id : String

-- `HasFee`
abbrev pub has_fee : PaymentEvent → Bool
has_fee e = ltb_ℤ (pos 0) e.fee.amount_minor

pub record SettlementPosted : Type 0 where
  pub event_id : Uuid
  pub settlement_id : String
  pub provider : String
  pub bank_account : String
  pub livemode : Bool
  pub occurred_at : Time
  pub gross : Money
  pub psp_fees : Money
  pub net_paid : Money
