-- ===== src/Reconciliation/Event.antt =====
-- internal/reconciliation/app/events.go and ports.go: what the service publishes. A payload is kept as
-- the value that the code prints as JSON, its event type as its constructor.
use payment_gateway.Base.{String, List}
use payment_gateway.Base.Clock.{Time}
use payment_gateway.Money.{Money}
use payment_gateway.Reconciliation.Discrepancy.{DiscrepancyKind, DiscrepancyStatus}
use payment_gateway.Reconciliation.Run.{RunStatus, RunSummary}

pub record RunCompletedEvent : Type 0 where
  pub run_id : String
  pub provider : String
  pub file_id : String
  pub file_hash : String
  pub period_start : Time
  pub period_end : Time
  pub status : RunStatus
  pub summary : RunSummary
  pub occurred_at : Time

pub record SettlementPostedEvent : Type 0 where
  pub settlement_id : String
  pub run_id : String
  pub file_id : String
  pub provider : String
  pub merchant_id : String
  pub payment_id : String
  pub record_kind : String
  pub provider_reference : String
  pub gross : Money
  pub psp_fee : Money
  pub net_paid : Money
  pub settled_at : Time
  pub occurred_at : Time

pub record DiscrepancyResolvedEvent : Type 0 where
  pub discrepancy_id : String
  pub run_id : String
  pub provider : String
  pub kind : DiscrepancyKind
  pub status : DiscrepancyStatus
  pub provider_reference : String
  pub internal_reference : String
  pub resolution_note : String
  pub resolved_by : String
  pub occurred_at : Time

pub data Payload : Type 0 where
  run_completed : RunCompletedEvent → Payload
  settlement_posted : SettlementPostedEvent → Payload
  discrepancy_resolved : DiscrepancyResolvedEvent → Payload

-- `OutboxMessage`
pub record OutboxMessage : Type 0 where
  pub aggregate_type : String
  pub aggregate_id : String
  pub event_type : String
  pub payload : Payload
  pub headers : List (String × String)
