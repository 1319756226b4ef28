-- ===== src/Payment/Invariant/Refunds.antt =====
-- The refund operations keep the invariant of a payment's amounts.
use payment_gateway.Base.{◌≡◌, arith, sym, ◌∙◌}
use payment_gateway.Base.Action.{ok}
use payment_gateway.Base.Int.{pos, ◌≤ℤ◌, ◌<ℤ◌, ◌-ℤ◌, +ℤ_parts, -ℤ_parts, IsInt64}
use payment_gateway.Money
use payment_gateway.Money.{Money}
use payment_gateway.Money.Arithmetic.{
  le_of_not_greater, sub-ok, add-ok, sub_exact_or_negative, equal_iff,
}
use payment_gateway.Payment.Status.{can_transition}
use payment_gateway.Payment.Model.{Payment, Time, Refund}
use payment_gateway.Payment.Refunding.{
  reserve_refund, mark_refunded, release_refund, available_to_refund,
}
use payment_gateway.Payment.Rules.Refunds.{
  reserve_refund_lem, mark_refunded_lem, release_refund_lem,
}
use payment_gateway.Payment.Invariant.{IsValid}

-- Every amount of a valid payment is an int64.
pub captured-IsInt64 : (p : Payment) → IsValid p → IsInt64 p.amount_captured.amount_minor
captured-IsInt64 p v = ground arith

refunded-IsInt64 : (p : Payment) → IsValid p → IsInt64 p.amount_refunded.amount_minor
refunded-IsInt64 p v =
    ground (arith, +ℤ_parts p.amount_refunded.amount_minor p.amount_refund_pending.amount_minor)

pub pending-IsInt64 : (p : Payment) → IsValid p → IsInt64 p.amount_refund_pending.amount_minor
pending-IsInt64 p v =
    ground (arith, +ℤ_parts p.amount_refunded.amount_minor p.amount_refund_pending.amount_minor)

-- The first subtraction of `AvailableToRefund`.
unrefunded :
    (p : Payment)
    → IsValid p
    → let c = p.amount_captured in
      let d : Money = record c {
        amount_minor = c.amount_minor -ℤ p.amount_refunded.amount_minor;
      } in
      (Money.sub c p.amount_refunded ≡ ok d)
      × IsInt64 d.amount_minor
      × (p.amount_refund_pending.amount_minor ≤ℤ d.amount_minor)
unrefunded p v =
    let c = p.amount_captured in
    let r = p.amount_refunded in
    let sum = +ℤ_parts r.amount_minor p.amount_refund_pending.amount_minor in
    let diff = -ℤ_parts c.amount_minor r.amount_minor in
    let exact =
      sub_exact_or_negative c r (v.captured.0 ∙ sym v.refunded.0) (captured-IsInt64 p v)
        v.refunded.1 in
    let (e, n) = exact.0 (ground (arith, sum)) in
    (e, ground (arith, n, sum, diff, captured-IsInt64 p v), ground (arith, sum, diff))

-- What may still be refunded is what was captured less what was refunded and less what is
-- reserved: on a valid payment `AvailableToRefund` never falls back on zero.
pub available_exact :
    (p : Payment)
    → IsValid p
    → (available_to_refund p).currency ≡ p.amount.currency
      × ((available_to_refund p).amount_minor
          ≡ p.amount_captured.amount_minor -ℤ p.amount_refunded.amount_minor
            -ℤ p.amount_refund_pending.amount_minor)
unfolding available_to_refund
available_exact p v =
    let (first, range, room) = unrefunded p v in
    let d : Money = record p.amount_captured {
      amount_minor = p.amount_captured.amount_minor -ℤ p.amount_refunded.amount_minor;
    } in
    let second =
      (sub_exact_or_negative d p.amount_refund_pending (v.captured.0 ∙ sym v.pending.0) range
          v.pending.1).0
        room in
    ground (arith, first, second.0, v.captured.0)

pub reserve_refund-IsValid :
    (r : Refund) (now : Time) (p : Payment)
    → IsInt64 r.amount.amount_minor
    → IsValid p
    → IsValid (reserve_refund r now p).1
reserve_refund-IsValid r now p h v =
    let q = p.amount_refund_pending in
    let q' = (reserve_refund r now p).1.amount_refund_pending in
    let room = available_exact p v in
    let c = p.amount_captured.amount_minor in
    let f = p.amount_refunded.amount_minor in
    ground (
      arith,
      reserve_refund_lem r now p,
      room,
      le_of_not_greater r.amount (available_to_refund p),
      add-ok q r.amount q' (pending-IsInt64 p v) h,
      +ℤ_parts f q.amount_minor,
      +ℤ_parts q.amount_minor r.amount.amount_minor,
      +ℤ_parts f q'.amount_minor,
      -ℤ_parts c f,
      -ℤ_parts (c -ℤ f) q.amount_minor,
    )

pub release_refund-IsValid :
    (r : Refund) (now : Time) (p : Payment)
    → pos 0 ≤ℤ r.amount.amount_minor
    → IsValid p
    → IsValid (release_refund r now p).1
release_refund-IsValid r now p h v =
    let q = p.amount_refund_pending in
    let q' = (release_refund r now p).1.amount_refund_pending in
    let f = p.amount_refunded.amount_minor in
    ground (
      arith,
      release_refund_lem r now p,
      sub-ok q r.amount q' (pending-IsInt64 p v) h,
      +ℤ_parts f q.amount_minor,
      -ℤ_parts q.amount_minor r.amount.amount_minor,
      +ℤ_parts f q'.amount_minor,
    )

pub mark_refunded-IsValid :
    (r : Refund) (now : Time) (p : Payment)
    → pos 0 <ℤ r.amount.amount_minor
    → IsInt64 r.amount.amount_minor
    → IsValid p
    → IsValid (mark_refunded r now p).1
unfolding can_transition
mark_refunded-IsValid r now p h i v =
    let q = p.amount_refund_pending in
    let f = p.amount_refunded in
    let q' = (mark_refunded r now p).1.amount_refund_pending in
    let f' = (mark_refunded r now p).1.amount_refunded in
    ground (
      arith,
      mark_refunded_lem r now p,
      sub-ok q r.amount q' (pending-IsInt64 p v),
      add-ok f r.amount f' (refunded-IsInt64 p v) i,
      le_of_not_greater f' p.amount_captured,
      equal_iff f' p.amount_captured,
      +ℤ_parts f.amount_minor q.amount_minor,
      -ℤ_parts q.amount_minor r.amount.amount_minor,
      +ℤ_parts f.amount_minor r.amount.amount_minor,
      +ℤ_parts f'.amount_minor q'.amount_minor,
    )
