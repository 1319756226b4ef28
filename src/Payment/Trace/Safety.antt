-- ===== src/Payment/Trace/Safety.antt =====
-- No sequence of calls breaks the bookkeeping of a payment, and an ended payment stays ended.
use payment_gateway.Base.{◌≡◌, String, arith, List, [], ◌∷◌, All}
use payment_gateway.Base.Action.{ok}
use payment_gateway.Base.Int.{◌+ℤ◌, IsInt64}
use payment_gateway.Ids.{Uuid}
use payment_gateway.Money
use payment_gateway.Money.{Money}
use payment_gateway.Payment.Model.{Payment, Event, Time, NewPaymentParams}
use payment_gateway.Payment.Create.{new_payment}
use payment_gateway.Payment.Attempts.{start_attempt}
use payment_gateway.Payment.Invariant.{IsValid}
use payment_gateway.Payment.Invariant.Keeps.{
  require_action-IsValid, authorize-IsValid, capture-IsValid, void-IsValid, fail-IsValid,
  expire-IsValid,
}
use payment_gateway.Payment.Invariant.Refunds.{
  reserve_refund-IsValid, mark_refunded-IsValid, release_refund-IsValid,
}
use payment_gateway.Payment.Trace.{Call, call, run, Admissible}

-- A new payment has its amount and nothing authorized, captured or refunded.
pub new_payment-IsValid :
    (uuid_text : Uuid → String) (u : Uuid) (params : NewPaymentParams) (now : Time) {p : Payment}
    {ev : Event}
    → IsInt64 params.amount.amount_minor
    → new_payment uuid_text u params now ≡ ok (p, ev)
    → IsValid p
unfolding new_payment Money.validate ◌+ℤ◌
new_payment-IsValid uuid_text u params now h e = ground arith

start_attempt-IsValid :
    (id provider reason : String) (now : Time) (p : Payment)
    → IsValid p
    → IsValid (start_attempt id provider reason now p).1
unfolding start_attempt
start_attempt-IsValid id provider reason now p v = ground arith

call-IsValid : (c : Call) (p : Payment) → Admissible c → IsValid p → IsValid (call c p).1
unfolding call
call-IsValid (Call.start_attempt id provider reason now) p a v =
    start_attempt-IsValid id provider reason now p v
call-IsValid (Call.require_action ref expires now) p a v =
    ground (arith, require_action-IsValid ref expires now p v)
call-IsValid (Call.authorize ap now) p a v = ground (arith, authorize-IsValid ap now p v)
call-IsValid (Call.capture amount fee now) p a v =
    ground (arith, capture-IsValid amount fee now p v)
call-IsValid (Call.void reason detail now) p a v =
    ground (arith, void-IsValid reason detail now p v)
call-IsValid (Call.fail f now) p a v = ground (arith, fail-IsValid f now p v)
call-IsValid (Call.expire now) p a v = ground (arith, expire-IsValid now p v)
call-IsValid (Call.reserve_refund r now) p a v = ground (arith, reserve_refund-IsValid r now p a v)
call-IsValid (Call.mark_refunded r now) p a v =
    ground (arith, mark_refunded-IsValid r now p a.1 a.0 v)
call-IsValid (Call.release_refund r now) p a v =
    ground (arith, release_refund-IsValid r now p (omega arith) v)

run-IsValid : (cs : List Call) (p : Payment) → All Admissible cs → IsValid p → IsValid (run cs p)
unfolding run
run-IsValid [] p a v = v
run-IsValid (c ∷ cs) p a v = run-IsValid cs (call c p).1 a.1 (call-IsValid c p a.0 v)

-- Any calls may follow a successful `NewPayment` of an int64 amount, if the refunds that are passed to
-- `ReserveRefund` have an int64 amount and the ones that are passed to `MarkRefunded` and `ReleaseRefund`
-- a positive one (these two methods do not check the sign; `ReserveRefund` does): the refunded and the
-- reserved amounts together never exceed the captured amount, which never exceeds the authorized amount,
-- which never exceeds the payment's amount; none of them is negative or in another currency, and
-- the state fits them (nothing captured before a capture, all of it refunded in `refunded`).
pub run-new_payment-IsValid :
    (uuid_text : Uuid → String) (u : Uuid) (params : NewPaymentParams) (now : Time) (cs : List Call)
    {p : Payment} {ev : Event}
    → IsInt64 params.amount.amount_minor
    → new_payment uuid_text u params now ≡ ok (p, ev)
    → All Admissible cs
    → IsValid (run cs p)
run-new_payment-IsValid uuid_text u params now cs {p} h e a =
    run-IsValid cs p a (new_payment-IsValid uuid_text u params now h e)
