-- ===== src/Payment/Trace.antt =====
-- A payment's life: any sequence of calls of the methods of internal/payment/domain/payment.go, on a
-- payment that `NewPayment` made, and the events that the calls return.
pub mod Safety
pub mod History
use payment_gateway.Base.{ℕ, String, Bool, Option, none, some, List, [], ◌∷◌}
use payment_gateway.Base.Action.{Result, ok, err}
use payment_gateway.Base.Int.{ℤ, pos, IsInt64, ◌<ℤ◌}
use payment_gateway.Money.{Money}
use payment_gateway.Payment.Status.{VoidReason}
use payment_gateway.Payment.ProviderError.{Failure}
use payment_gateway.Payment.Model.{Payment, Refund, Event, Time, AuthorizeParams, PaymentError}
use payment_gateway.Payment.Attempts
use payment_gateway.Payment.Authorization
use payment_gateway.Payment.Refunding

-- One call, with its arguments.
pub data Call : Type 0 where
  start_attempt : String → String → String → Time → Call
  require_action : String → Time → Time → Call
  authorize : AuthorizeParams → Time → Call
  capture : Money → ℤ → Time → Call
  void : VoidReason → String → Time → Call
  fail : Failure → Time → Call
  expire : Time → Call
  reserve_refund mark_refunded release_refund : Refund → Time → Call

abbrev pub event_of : Result PaymentError Event × Payment → Option Event × Payment
event_of (ok ev, p) = (some ev, p)
event_of (err _, p) = (none, p)

abbrev pub no_event : {A : Type 0} → Result PaymentError A × Payment → Option Event × Payment
no_event (_, p) = (none, p)

-- The call's event, if it succeeds with one, and the payment after it.
unfoldable pub call : Call → Payment → Option Event × Payment
call (Call.start_attempt id provider reason now) p =
    no_event (Attempts.start_attempt id provider reason now p)
call (Call.require_action ref expires now) p =
    event_of (Authorization.require_action ref expires now p)
call (Call.authorize ap now) p = event_of (Authorization.authorize ap now p)
call (Call.capture amount fee now) p = event_of (Authorization.capture amount fee now p)
call (Call.void reason detail now) p = event_of (Authorization.void reason detail now p)
call (Call.fail f now) p = event_of (Authorization.fail f now p)
call (Call.expire now) p = event_of (Authorization.expire now p)
call (Call.reserve_refund r now) p = event_of (Refunding.reserve_refund r now p)
call (Call.mark_refunded r now) p = event_of (Refunding.mark_refunded r now p)
call (Call.release_refund r now) p = event_of (Refunding.release_refund r now p)

unfoldable pub run : List Call → Payment → Payment
run [] p = p
run (c ∷ cs) p = run cs (call c p).1

abbrev pub cons_event : Option Event → List Event → List Event
cons_event none evs = evs
cons_event (some ev) evs = ev ∷ evs

-- The events of the calls that succeeded, in order.
unfoldable pub log : List Call → Payment → List Event
log [] p = []
log (c ∷ cs) p = cons_event (call c p).0 (log cs (call c p).1)

-- What a caller owes: the amount of a refund is an int64, and where it is confirmed or released it is
-- positive, which `ReserveRefund` has checked and those two methods do not check again.
abbrev pub Admissible : Call → Type 0
Admissible (Call.reserve_refund r _) = IsInt64 r.amount.amount_minor
Admissible (Call.mark_refunded r _) =
    IsInt64 r.amount.amount_minor × (pos 0 <ℤ r.amount.amount_minor)
Admissible (Call.release_refund r _) =
    IsInt64 r.amount.amount_minor × (pos 0 <ℤ r.amount.amount_minor)
Admissible _ = Unit
