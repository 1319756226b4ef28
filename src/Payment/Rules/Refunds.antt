-- ===== src/Payment/Rules/Refunds.antt =====
-- `ReserveRefund`, `MarkRefunded` and `ReleaseRefund` of internal/payment/domain/payment.go.
use payment_gateway.Base.{◌≡◌, true, false, arith, ◌+◌, text_eq_iff, if◌then◌else◌}
use payment_gateway.Base.Action.{ok}
use payment_gateway.Base.Int.{pos, ◌<ℤ◌}
use payment_gateway.Money
use payment_gateway.Money.{Money}
use payment_gateway.Payment.Status.{Status, can_transition}
use payment_gateway.Payment.Model.{Payment, Refund, Event, EventType, Time}
use payment_gateway.Payment.Refunding.{
  reserve_refund, mark_refunded, release_refund, available_to_refund, can_refund,
}
use payment_gateway.Payment.Rules.{Outcome, Announces}

-- What a call of `ReserveRefund` that succeeds has checked and done.
abbrev pub Reserved : Refund → Time → Payment → Event → Payment → Type 0
Reserved r now p ev p' =
    (can_refund p.status ≡ ok tt)
    × (r.amount.currency ≡ p.amount.currency)
    × (pos 0 <ℤ r.amount.amount_minor)
    × (Money.greater_than r.amount (available_to_refund p) ≡ false)
    × Announces EventType.refund_created p.status p ev
    × (Money.add p.amount_refund_pending r.amount ≡ ok p'.amount_refund_pending)
    × (p' ≡ record p {
      version = p.version + 1;
      updated_at = now;
      amount_refund_pending = p'.amount_refund_pending;
    })

pub reserve_refund_lem :
    (r : Refund) (now : Time) (p : Payment) → Outcome p (Reserved r now p) (reserve_refund r now p)
unfolding reserve_refund
reserve_refund_lem r now p = ground (arith, text_eq_iff r.amount.currency p.amount.currency)

-- The state after a refund has succeeded.
abbrev pub after_refund : Money → Money → Status
after_refund refunded captured =
    if Money.equal refunded captured then Status.refunded else Status.partially_refunded

pub mark_refunded_lem :
    (r : Refund) (now : Time) (p : Payment)
    → Outcome p
        (λ ev p'.
          (Money.sub p.amount_refund_pending r.amount ≡ ok p'.amount_refund_pending)
          × (Money.add p.amount_refunded r.amount ≡ ok p'.amount_refunded)
          × (Money.greater_than p'.amount_refunded p.amount_captured ≡ false)
          × (can_transition p.status p'.status ≡ true)
          × Announces EventType.refund_succeeded p'.status p ev
          × (p' ≡ record p {
            status = after_refund p'.amount_refunded p.amount_captured;
            version = p.version + 1;
            updated_at = now;
            amount_refund_pending = p'.amount_refund_pending;
            amount_refunded = p'.amount_refunded;
          }))
        (mark_refunded r now p)
unfolding mark_refunded
mark_refunded_lem r now p = ground arith

pub release_refund_lem :
    (r : Refund) (now : Time) (p : Payment)
    → Outcome p
        (λ ev p'.
          (Money.sub p.amount_refund_pending r.amount ≡ ok p'.amount_refund_pending)
          × Announces EventType.refund_failed p.status p ev
          × (p' ≡ record p {
            version = p.version + 1;
            updated_at = now;
            amount_refund_pending = p'.amount_refund_pending;
          }))
        (release_refund r now p)
unfolding release_refund
release_refund_lem r now p = ground arith
