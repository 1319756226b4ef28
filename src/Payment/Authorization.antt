-- ===== src/Payment/Authorization.antt =====
-- internal/payment/domain/payment.go: authorization, capture and the ends without capture.
use payment_gateway.Base.{
  ℕ, String, Bool, true, false, Option, none, some, [], ◌∷◌, ◌+◌, ◌&&◌, not, text_eq, if◌then◌else◌,
  length, ltb, ◌==◌,
}
use payment_gateway.Base.Action.{ok, err}
use payment_gateway.Base.Method.{Method, raise_if, get, modify, pure, ◌>>=◌, ◌>>◌}
use payment_gateway.Base.Int.{ℤ}
use payment_gateway.Money
use payment_gateway.Money.{Money}
use payment_gateway.Payment.Status.{Status, VoidReason, void_reason_text, status_text, status_eq}
use payment_gateway.Payment.ProviderError.{
  category_text, Failure, is_retryable_decline, public_code,
}
use payment_gateway.Payment.Create.{transition}
use payment_gateway.Payment.Model.{
  Payment, PaymentMethodDetails, AuthorizeParams, Event, EventType, Value, Time, PaymentError,
  invalid_transition, currency_mismatch, amount_too_small, amount_exceeds_authorized,
  payment_expired, void_not_allowed, default_action_window, default_auth_validity,
}
use payment_gateway.Base.Int.{pos}

abbrev pub or_default : Time → Time → Time
or_default t d = if t == 0 then d else t

-- `now.After(*t)` for a deadline that may be nil.
abbrev pub is_past : Option Time → Time → Bool
is_past none now = false
is_past (some t) now = ltb t now

-- `RequireAction`
unfoldable pub require_action : String → Time → Time → Method Payment PaymentError Event
unfolding transition
require_action provider_ref expires_at now = do
  let expires = or_default expires_at (now + default_action_window)
  p ← get
  ev ←
      transition EventType.payment_requires_action Status.requires_action now
        (("provider", Value.text p.selected_provider) ∷ ("expires_at", Value.time expires) ∷ [])
  modify (λ q. record q { provider_reference = provider_ref; expires_at = some expires })
  pure ev

-- `pick` in `mergeDetails`: the second text, unless it is empty.
abbrev pub pick : String → String → String
pick a b = if not (text_eq b "") then b else a

abbrev pub pick_number : ℕ → ℕ → ℕ
pick_number a b = if not (b == 0) then b else a

-- `mergeDetails`
abbrev pub merge_details : PaymentMethodDetails → PaymentMethodDetails → PaymentMethodDetails
merge_details base new = record base {
  brand = pick base.brand new.brand;
  last4 = pick base.last4 new.last4;
  issuer = pick base.issuer new.issuer;
  issuer_country = pick base.issuer_country new.issuer_country;
  funding = pick base.funding new.funding;
  three_ds_result = pick base.three_ds_result new.three_ds_result;
  wallet_type = pick base.wallet_type new.wallet_type;
  exp_month = pick_number base.exp_month new.exp_month;
  exp_year = pick_number base.exp_year new.exp_year;
}

abbrev pub merge_if_given :
    PaymentMethodDetails → Option PaymentMethodDetails → PaymentMethodDetails
merge_if_given base none = base
merge_if_given base (some d) = merge_details base d

-- `Authorize`
unfoldable pub authorize : AuthorizeParams → Time → Method Payment PaymentError Event
unfolding transition
authorize ap now = do
  p ← get
  raise_if (status_eq p.status Status.requires_action && is_past p.expires_at now) payment_expired
  let auth_expires = or_default ap.auth_expires_at (now + default_auth_validity)
  ev ← transition EventType.payment_authorized Status.authorized now (
      ("amount", Value.num p.amount.amount_minor)
      ∷ ("currency", Value.text p.amount.currency)
      ∷ ("provider", Value.text ap.provider)
      ∷ ("provider_reference", Value.text ap.provider_reference)
      ∷ ("fee", Value.num ap.fee_minor)
      ∷ ("authorization_expires_at", Value.time auth_expires)
      ∷ [])
  modify (λ q. record q {
    amount_authorized = q.amount;
    selected_provider = pick q.selected_provider ap.provider;
    provider_reference = ap.provider_reference;
    authorized_at = some now;
    auth_expires_at = some auth_expires;
    expires_at = none;
    failure = none;
    payment_method_details = merge_if_given q.payment_method_details ap.details;
  })
  pure ev

-- `Capture`
unfoldable pub capture : Money → ℤ → Time → Method Payment PaymentError Event
unfolding transition
capture amount fee_minor now = do
  p ← get
  raise_if (not (status_eq p.status Status.authorized)) invalid_transition
  raise_if (not (text_eq amount.currency p.amount.currency)) currency_mismatch
  raise_if (not (Money.is_positive amount)) amount_too_small
  raise_if (Money.greater_than amount p.amount_authorized) amount_exceeds_authorized
  raise_if (is_past p.auth_expires_at now) payment_expired
  ev ← transition EventType.payment_captured Status.captured now (
      ("amount", Value.num amount.amount_minor)
      ∷ ("currency", Value.text amount.currency)
      ∷ ("total_captured", Value.num amount.amount_minor)
      ∷ ("provider", Value.text p.selected_provider)
      ∷ ("provider_reference", Value.text p.provider_reference)
      ∷ ("fee", Value.num fee_minor)
      ∷ ("is_final", Value.flag true)
      ∷ [])
  modify (λ q. record q { amount_captured = amount; captured_at = some now })
  pure ev

-- `RemainingAuthorized`
unfoldable pub remaining_authorized : Payment → Money
remaining_authorized p = elim (Money.sub p.amount_authorized p.amount_captured) [
  | ok m ↦ m
  | err _ ↦ Money.zero_of p.amount.currency
]

-- The `switch` of `Void`: states in which money was captured.
abbrev pub was_captured : Status → Bool
was_captured Status.captured = true
was_captured Status.partially_refunded = true
was_captured Status.refunded = true
was_captured Status.disputed = true
was_captured Status.chargeback_won = true
was_captured _ = false

abbrev pub default_reason : VoidReason → VoidReason
default_reason (VoidReason.other s) =
    if text_eq s "" then VoidReason.merchant_request else VoidReason.other s
default_reason r = r

-- `Void`
unfoldable pub void : VoidReason → String → Time → Method Payment PaymentError Event
unfolding transition
void reason detail now = do
  p ← get
  raise_if (was_captured p.status) void_not_allowed
  let why = default_reason reason
  ev ← transition EventType.payment_voided Status.voided now (
      ("amount", Value.num p.amount_authorized.amount_minor)
      ∷ ("currency", Value.text p.amount.currency)
      ∷ ("provider", Value.text p.selected_provider)
      ∷ ("provider_reference", Value.text p.provider_reference)
      ∷ ("reason", Value.text (void_reason_text why))
      ∷ ("detail", Value.text detail)
      ∷ [])
  modify (λ q. record q { void_reason = some why; voided_at = some now; expires_at = none })
  pure ev

-- The failure as `Fail` completes it.
unfoldable pub complete_failure : Failure → Payment → Failure
complete_failure f p = record f {
  provider = if text_eq f.provider "" then p.selected_provider else f.provider;
  retryable = is_retryable_decline f.category f.code;
}

-- `Fail`
unfoldable pub fail : Failure → Time → Method Payment PaymentError Event
unfolding transition
fail failure now = do
  p ← get
  let f = complete_failure failure p
  ev ← transition EventType.payment_failed Status.failed now (
      ("amount", Value.num p.amount.amount_minor)
      ∷ ("currency", Value.text p.amount.currency)
      ∷ ("provider", Value.text f.provider)
      ∷ ("error_category", Value.text (category_text f.category))
      ∷ ("error_code", Value.text (public_code f))
      ∷ ("error_message", Value.text f.message)
      ∷ ("attempt_count", Value.num (pos (length p.attempts)))
      ∷ ("retryable", Value.flag f.retryable)
      ∷ [])
  modify (λ q. record q { failure = some f; expires_at = none })
  pure ev

-- `Expire`
unfoldable pub expire : Time → Method Payment PaymentError Event
unfolding transition
expire now = do
  p ← get
  ev ← transition EventType.payment_expired Status.expired now (
      ("amount", Value.num p.amount.amount_minor)
      ∷ ("currency", Value.text p.amount.currency)
      ∷ ("provider", Value.text p.selected_provider)
      ∷ ("previous_status", Value.text (status_text p.status))
      ∷ [])
  modify (λ q. record q { expires_at = none })
  pure ev
