-- ===== src/Reconciliation/Projector.antt =====
-- internal/reconciliation/app/projector.go: the payment service's events, projected into the records that
-- settlements are matched with. The decoder of the wire format, the parser of UUIDs and the hash of a
-- name are arguments; a version is not negative.
pub mod Newest
mod Examples
use payment_gateway.Base.{
  ℕ, ◌+◌, ◌==◌, String, Bool, true, false, Option, none, some, List, [], ◌∷◌, ◌||◌, text_eq,
  if◌then◌else◌,
}
use payment_gateway.Base.Action.{Result, ok, err, map_err}
use payment_gateway.Base.Ascii.{trim_prefix, to_lower}
use payment_gateway.Base.Clock.{Time}
use payment_gateway.Base.Int.{pos}
use payment_gateway.Base.Method.{Method, pure, raise, ◌>>=◌}
use payment_gateway.Ids.{Uuid, nil_uuid, parse}
use payment_gateway.Money.{Money}
use payment_gateway.Reconciliation.Discrepancy.{ReconError}
use payment_gateway.Reconciliation.Record.{
  PaymentRecord, RecordKind, status_authorized, status_captured, status_voided, refund_pending,
  refund_succeeded, refund_failed, dispute_open, dispute_won, dispute_lost,
}
use payment_gateway.Reconciliation.Store.{Store, M, upsert_record, mark_processed, within_tx}

pub data EventType : Type 0 where
  unspecified payment_created payment_requires_action payment_authorized payment_captured
        payment_voided payment_failed payment_expired refund_created refund_succeeded_event
        refund_failed_event dispute_opened dispute_evidence_submitted dispute_won_event
        dispute_lost_event unknown :
      EventType

-- What the getters of the event's body answer: the zero value of each field that the body lacks.
pub record Body : Type 0 where
  pub refund_id : String
  pub dispute_id : String
  pub provider : String
  pub provider_reference : String
  pub amount : Option Money
  pub total_captured_amount : Option Money
  pub fee : Option Money
  pub is_won : Bool

pub record PaymentEvent : Type 0 where
  pub event_type : EventType
  pub occurred_at : Option Time
  pub merchant_id : String
  pub payment_id : String
  pub payment_version : ℕ
  pub payment_status : String
  pub body : EventType → Body

-- The consumer: its name, what it is given from other packages, and the clock's reading.
pub record Projector : Type 0 where
  pub consumer_name : String
  pub unmarshal : String → Option PaymentEvent
  pub parse_uuid : String → Option Uuid
  pub sha1_uuid : String → Uuid
  pub now : Time

abbrev pub parsed_or : Option Uuid → Uuid → Uuid
parsed_or (some u) v = u
parsed_or none v = v

-- `uuidFromPublicID`
unfoldable pub uuid_from_public_id : Projector → String → Uuid
uuid_from_public_id p s =
    if text_eq s ""
    then nil_uuid
    else elim (parse s) [ ok (_, u) ↦ u | err _ ↦ parsed_or (p.parse_uuid s) (p.sha1_uuid s) ]

-- `moneyOf`
abbrev pub money_of : Option Money → Money
money_of none = record { amount_minor = pos 0; currency = "" }
money_of (some m) = m

-- `optMoney`
abbrev pub opt_money : Option Money → Option Money
opt_money none = none
opt_money (some m) = if text_eq m.currency "" then none else some m

-- `paymentStatusString`, of the name of the status.
abbrev pub payment_status_string : String → String → String
payment_status_string status fallback =
    if text_eq status "PAYMENT_STATUS_UNSPECIFIED"
    then fallback
    else to_lower (trim_prefix status "PAYMENT_STATUS_")

abbrev pub total_or : Option Money → Option Money → Option Money
total_or none amount = amount
total_or (some m) amount = some m

abbrev pub occurred_or : Time → Option Time → Time
occurred_or now none = now
occurred_or now (some t) = t

-- `base` with what every event has.
abbrev pub base : Projector → PaymentEvent → RecordKind → String → PaymentRecord
base p ev kind public_id = record {
  id = uuid_from_public_id p public_id;
  kind = kind;
  public_id = public_id;
  merchant_id = uuid_from_public_id p ev.merchant_id;
  provider = "";
  provider_reference = "";
  amount = money_of none;
  fee = none;
  status = "";
  occurred_at = occurred_or p.now ev.occurred_at;
  source_seq = ev.payment_version;
  created_at = p.now;
  updated_at = p.now;
}

-- A record of a body with a provider's reference.
abbrev pub referred : Body → Option Money → Option Money → String → PaymentRecord → PaymentRecord
referred b amount fee status r = record r {
  provider = b.provider;
  provider_reference = b.provider_reference;
  amount = money_of amount;
  fee = fee;
  status = status;
}

-- A record of a body without one.
abbrev pub unreferred : Body → String → PaymentRecord → PaymentRecord
unreferred b status r = record r {
  provider = b.provider;
  amount = money_of b.amount;
  status = status;
}

-- The `switch` on the event's type.
abbrev pub record_of : Projector → PaymentEvent → EventType → Body → Option PaymentRecord
record_of p ev EventType.payment_authorized b = some (
    referred b b.amount (opt_money b.fee) status_authorized
      (base p ev RecordKind.payment ev.payment_id))
record_of p ev EventType.payment_captured b = some (
    referred b (total_or b.total_captured_amount b.amount) (opt_money b.fee)
      (payment_status_string ev.payment_status status_captured)
      (base p ev RecordKind.payment ev.payment_id))
record_of p ev EventType.payment_voided b =
    some (referred b b.amount none status_voided (base p ev RecordKind.payment ev.payment_id))
record_of p ev EventType.refund_created b =
    some (unreferred b refund_pending (base p ev RecordKind.refund b.refund_id))
record_of p ev EventType.refund_succeeded_event b = some (
    referred b b.amount (opt_money b.fee) refund_succeeded
      (base p ev RecordKind.refund b.refund_id))
record_of p ev EventType.refund_failed_event b =
    some (unreferred b refund_failed (base p ev RecordKind.refund b.refund_id))
record_of p ev EventType.dispute_opened b =
    some (
      referred b b.amount (opt_money b.fee) dispute_open
        (base p ev RecordKind.dispute b.dispute_id))
record_of p ev EventType.dispute_won_event b =
    some (
      referred b b.amount (opt_money b.fee) dispute_won (base p ev RecordKind.dispute b.dispute_id))
record_of p ev EventType.dispute_lost_event b = some (
    referred b b.amount (opt_money b.fee) (if b.is_won then dispute_won else dispute_lost)
      (base p ev RecordKind.dispute b.dispute_id))
record_of p ev _ b = none

abbrev pub known_merchant : Projector → PaymentRecord → PaymentRecord
known_merchant p r =
    if r.merchant_id == nil_uuid
    then record r { merchant_id = p.sha1_uuid "merchant:unknown" }
    else r

abbrev pub complete_record : Projector → Option PaymentRecord → Option PaymentRecord
complete_record p none = none
complete_record p (some r) =
    if text_eq r.public_id "" || text_eq r.amount.currency ""
    then none
    else some (known_merchant p r)

-- `ProjectPaymentEvent`
unfoldable pub project_payment_event : Projector → PaymentEvent → Option PaymentRecord
project_payment_event p ev =
    complete_record p (record_of p ev ev.event_type (ev.body ev.event_type))

pub data HandleError : Type 0 where
  poison_message : HandleError
  failed : ReconError → HandleError

-- A call of the store, whose error is returned as it is.
abbrev pub call : {A : Type 0} → M A → Method Store HandleError A
call m s = let (r, s') = m s in (map_err failed r, s')

abbrev pub keep : Option PaymentRecord → Method Store HandleError (Unit {0})
keep none s = (ok tt, s)
keep (some r) s =
    let (a, s') = call (upsert_record r) s in (elim a [ ok _ ↦ ok tt | err e ↦ err e ], s')

-- The record of a payload that can be read.
abbrev pub projected : Projector → Option PaymentEvent → Option PaymentRecord
projected p none = none
projected p (some ev) = project_payment_event p ev

abbrev pub consume : Projector → Option PaymentEvent → Method Store HandleError (Unit {0})
consume p none = raise poison_message
consume p (some ev) = keep (project_payment_event p ev)

abbrev pub unless_processed :
    Bool → Method Store HandleError (Unit {0}) → Method Store HandleError (Unit {0})
unless_processed true m s = (ok tt, s)
unless_processed false m s = m s

-- After the inbox has said whether the event was handled before.
abbrev pub after_inbox :
    Projector → String → Result ReconError Bool × Store → Result HandleError (Unit {0}) × Store
after_inbox p payload (ok already, s) = unless_processed already (consume p (p.unmarshal payload)) s
after_inbox p payload (err e, s) = (err (failed e), s)

-- `HandlePaymentEvent`
unfoldable pub handle_payment_event :
    Projector → String → String → Method Store HandleError (Unit {0})
unfolding within_tx
handle_payment_event p event_id payload s =
    if text_eq event_id ""
    then (err poison_message, s)
    else after_inbox p payload (within_tx (mark_processed event_id p.consumer_name) s)
