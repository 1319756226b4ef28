-- ===== src/Payment/Rules/Capturing.antt =====
-- `RequireAction`, `Authorize` and `Capture` of internal/payment/domain/payment.go.
use payment_gateway.Base.{
  ◌≡◌, ◌≢◌, ◌⊎◌, String, false, Option, arith, ◌≤◌, none, some, ◌+◌, text_eq_iff, refl,
}
use payment_gateway.Base.Action.{err}
use payment_gateway.Base.Int.{ℤ, pos, ◌<ℤ◌}
use payment_gateway.Money.{Money, greater_than}
use payment_gateway.Payment.Status.{Status, can_transition}
use payment_gateway.Payment.Model.{
  PaymentError, Payment, Event, EventType, Time, AuthorizeParams, default_action_window,
  default_auth_validity,
}
use payment_gateway.Payment.Authorization.{
  require_action, authorize, capture, is_past, or_default, pick, merge_if_given,
}
use payment_gateway.Payment.Rules.{Outcome, Announces, Decides, Decides-of_Outcome}

pub require_action_lem :
    (ref : String) (expires now : Time) (p : Payment)
    → Outcome p
        (λ ev p'.
          (p.status ≡ Status.created)
          × Announces EventType.payment_requires_action Status.requires_action p ev
          × (p' ≡ record p {
            status = Status.requires_action;
            version = p.version + 1;
            updated_at = now;
            provider_reference = ref;
            expires_at = some (or_default expires (now + default_action_window));
          }))
        (require_action ref expires now p)
unfolding require_action can_transition
require_action_lem ref expires now p = ground arith

pub authorize_lem :
    (ap : AuthorizeParams) (now : Time) (p : Payment)
    → Outcome p
        (λ ev p'.
          ((p.status ≡ Status.created)
            ⊎ (p.status ≡ Status.requires_action) × (is_past p.expires_at now ≡ false))
          × Announces EventType.payment_authorized Status.authorized p ev
          × (p' ≡ record p {
            status = Status.authorized;
            version = p.version + 1;
            updated_at = now;
            amount_authorized = p.amount;
            selected_provider = pick p.selected_provider ap.provider;
            provider_reference = ap.provider_reference;
            authorized_at = some now;
            auth_expires_at = some (or_default ap.auth_expires_at (now + default_auth_validity));
            expires_at = none;
            failure = none;
            payment_method_details = merge_if_given p.payment_method_details ap.details;
          }))
        (authorize ap now p)
unfolding authorize can_transition
authorize_lem ap now p = ground arith

-- A deadline, where there is one, that the time has not passed; the deadline itself is in time.
abbrev pub InTime : Option Time → Time → Type 0
InTime none now = Unit
InTime (some deadline) now = now ≤ deadline

InTime-of_is_past : (o : Option Time) (now : Time) → is_past o now ≡ false → InTime o now
InTime-of_is_past none now h = tt
InTime-of_is_past (some t) now h = ground (arith, h)

is_past-of_InTime : (o : Option Time) (now : Time) → InTime o now → is_past o now ≡ false
is_past-of_InTime none now h = refl
is_past-of_InTime (some t) now h = ground (arith, h)

-- When `Capture` may go ahead.
pub record CanCapture (amount : Money) (now : Time) (p : Payment) : Type 0 where
  pub is_authorized : p.status ≡ Status.authorized
  pub same_currency : amount.currency ≡ p.amount.currency
  pub positive : pos 0 <ℤ amount.amount_minor
  pub within : greater_than amount p.amount_authorized ≡ false
  pub in_time : InTime p.auth_expires_at now

-- What a capture does: the event, and the payment after it.
abbrev pub Captures : Money → Time → Payment → Event → Payment → Type 0
Captures amount now p ev p' =
    Announces EventType.payment_captured Status.captured p ev
    × (p' ≡ record p {
      status = Status.captured;
      version = p.version + 1;
      updated_at = now;
      amount_captured = amount;
      captured_at = some now;
    })

pub capture_lem :
    (amount : Money) (fee : ℤ) (now : Time) (p : Payment)
    → Outcome p
        (λ ev p'. CanCapture amount now p × Captures amount now p ev p')
        (capture amount fee now p)
unfolding capture can_transition
capture_lem amount fee now p = ground (arith, text_eq_iff amount.currency p.amount.currency)

-- Nothing else stops a capture.
pub capture_of_CanCapture :
    (amount : Money) (fee : ℤ) (now : Time) (p : Payment)
    → CanCapture amount now p
    → (capture amount fee now p).1.status ≡ Status.captured
unfolding capture can_transition
capture_of_CanCapture amount fee now p c =
    ground (arith, text_eq_iff amount.currency p.amount.currency)

capture-ne-err :
    (amount : Money) (fee : ℤ) (now : Time) (p : Payment)
    → CanCapture amount now p
    → (e : PaymentError) → (capture amount fee now p).0 ≢ err e
unfolding capture can_transition
capture-ne-err amount fee now p c e h =
    ground (arith, text_eq_iff amount.currency p.amount.currency)

-- On every payment `Capture` either goes ahead or changes nothing: it goes ahead exactly when the
-- payment is authorized, the amount is positive, in the payment's currency and not above the
-- authorized amount, and the deadline of the authorization, where there is one, is not before now (at
-- the very instant of the deadline a capture still goes ahead); it then sets the captured amount, the
-- time, the state and the version, and no other field.
pub capture-Decides :
    (amount : Money) (fee : ℤ) (now : Time) (p : Payment)
    → Decides (CanCapture amount now p) (Captures amount now p) p (capture amount fee now p)
capture-Decides amount fee now p =
    Decides-of_Outcome (CanCapture amount now p) (Captures amount now p) p
      (capture amount fee now p) (capture_lem amount fee now p) (capture-ne-err amount fee now p)
