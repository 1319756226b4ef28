-- ===== src/Payment/Refunding.antt =====
-- internal/payment/domain/payment.go: refunds against a payment, in two phases: an amount is
-- reserved, and then moved to refunded or released.
use payment_gateway.Base.{some, [], ◌∷◌, not, text_eq, if◌then◌else◌}
use payment_gateway.Base.Action.{Result, ok, err}
use payment_gateway.Base.Method.{Method, raise_if, get, modify, pure, lift, ◌>>=◌, ◌>>◌}
use payment_gateway.Money
use payment_gateway.Money.{Money}
use payment_gateway.Payment.Status.{Status}
use payment_gateway.Payment.Create.{emit, transition}
use payment_gateway.Payment.Model.{
  Payment, Refund, Event, EventType, Value, Time, PaymentError, currency_mismatch, amount_too_small,
  payment_disputed, payment_not_refundable, refund_exceeds_available,
}

-- `AvailableToRefund`: captured less refunded less pending, and zero where that fails.
unfoldable pub available_to_refund : Payment → Money
available_to_refund p = elim (Money.sub p.amount_captured p.amount_refunded) [
  | ok m ↦ elim (Money.sub m p.amount_refund_pending) [
    | ok n ↦ n
    | err _ ↦ Money.zero_of p.amount.currency
  ]
  | err _ ↦ Money.zero_of p.amount.currency
]

-- `CanRefund`
abbrev pub can_refund : Status → Result PaymentError (Unit {0})
can_refund Status.captured = ok tt
can_refund Status.partially_refunded = ok tt
can_refund Status.chargeback_won = ok tt
can_refund Status.disputed = err payment_disputed
can_refund _ = err payment_not_refundable

-- `ReserveRefund`
unfoldable pub reserve_refund : Refund → Time → Method Payment PaymentError Event
unfolding emit
reserve_refund r now = do
  p ← get
  lift (λ e. e) (can_refund p.status)
  raise_if (not (text_eq r.amount.currency p.amount.currency)) currency_mismatch
  raise_if (not (Money.is_positive r.amount)) amount_too_small
  raise_if (Money.greater_than r.amount (available_to_refund p)) refund_exceeds_available
  pending ← lift (λ _. refund_exceeds_available) (Money.add p.amount_refund_pending r.amount)
  modify (λ q. record q { amount_refund_pending = pending })
  emit EventType.refund_created (some p.status) p.status now (
      ("refund_id", Value.text r.public_id)
      ∷ ("amount", Value.num r.amount.amount_minor)
      ∷ ("currency", Value.text r.amount.currency)
      ∷ ("provider", Value.text p.selected_provider)
      ∷ ("reason", Value.text r.reason)
      ∷ [])

-- `MarkRefunded`
unfoldable pub mark_refunded : Refund → Time → Method Payment PaymentError Event
unfolding transition
mark_refunded r now = do
  p ← get
  pending ← lift (λ _. refund_exceeds_available) (Money.sub p.amount_refund_pending r.amount)
  refunded ← lift (λ _. refund_exceeds_available) (Money.add p.amount_refunded r.amount)
  raise_if (Money.greater_than refunded p.amount_captured) refund_exceeds_available
  let to =
      if Money.equal refunded p.amount_captured then Status.refunded else Status.partially_refunded
  ev ← transition EventType.refund_succeeded to now (
      ("refund_id", Value.text r.public_id)
      ∷ ("amount", Value.num r.amount.amount_minor)
      ∷ ("currency", Value.text r.amount.currency)
      ∷ ("provider", Value.text r.provider)
      ∷ ("provider_reference", Value.text r.provider_reference)
      ∷ ("total_refunded", Value.num refunded.amount_minor)
      ∷ [])
  modify (λ q. record q { amount_refund_pending = pending; amount_refunded = refunded })
  pure ev

-- `ReleaseRefund`
unfoldable pub release_refund : Refund → Time → Method Payment PaymentError Event
unfolding emit
release_refund r now = do
  p ← get
  pending ← lift (λ _. refund_exceeds_available) (Money.sub p.amount_refund_pending r.amount)
  modify (λ q. record q { amount_refund_pending = pending })
  emit EventType.refund_failed (some p.status) p.status now (
      ("refund_id", Value.text r.public_id)
      ∷ ("amount", Value.num r.amount.amount_minor)
      ∷ ("currency", Value.text r.amount.currency)
      ∷ ("provider", Value.text r.provider)
      ∷ ("error_code", Value.text r.failure_code)
      ∷ ("error_message", Value.text r.failure_message)
      ∷ [])
