-- ===== src/Payment/Examples.antt =====
-- One payment's life, and the theorems on payments at it.
use payment_gateway.Base.{
  true, ◌↔◌, ◌*◌, ◌+◌, ◌≡◌, refl, arith, String, false, none, some, List, [], ◌∷◌, ℕ, All,
}
use payment_gateway.Base.Action.{ok}
use payment_gateway.Base.Int.{pos, sub64, wrap64, ◌-ℤ◌, add64, ◌+ℤ◌}
use payment_gateway.Base.Clock.{second, minute}
use payment_gateway.Ids.{Uuid}
use payment_gateway.Money
use payment_gateway.Money.{Money}
use payment_gateway.Money.Currency.{is_supported_currency}
use payment_gateway.Payment.Attempts
use payment_gateway.Payment.Authorization
use payment_gateway.Payment.Refunding
use payment_gateway.Payment.Status.{Status, CaptureMethod, RefundStatus, can_transition}
use payment_gateway.Payment.Model.{
  Attempt, Payment, Event, Value, EventType, NewPaymentParams, AuthorizeParams, Refund, Customer,
  PaymentMethodDetails,
}
use payment_gateway.Payment.Create.{new_payment, fresh_payment}
use payment_gateway.Payment.ProviderError.{Category}
use payment_gateway.Payment.Attempt.{new_attempt, mark_failed, can_failover}
use payment_gateway.Payment.Rules.{Decides}
use payment_gateway.Payment.Rules.Capturing.{CanCapture, Captures, capture-Decides}
use payment_gateway.Payment.Rules.Failover.{AllowsFailover, can_failover_iff}
use payment_gateway.Payment.Rules.Settling.{Report, settle, settle_all, settle_all-first}
use payment_gateway.Payment.Invariant.Reserve.{
  Fits, Reserves, reserve_refund-Decides, release_refund-reserve_refund,
}
use payment_gateway.Payment.Trace.{Call, call, run, log, Admissible}
use payment_gateway.Payment.Invariant.{IsValid}
use payment_gateway.Payment.Trace.Safety.{run-new_payment-IsValid}
use payment_gateway.Payment.Trace.History.{replay, replay-log, terminal_absorbs}

abbrev usd : ℕ → Money
usd n = record { amount_minor = pos n; currency = "USD" }

abbrev nobody : Customer
nobody = record {
  id = "";
  email = "";
  name = "";
  phone = "";
  ip_address = "";
  user_agent = "";
  billing_country = "";
  billing_postal_code = "";
}

abbrev card : PaymentMethodDetails
card = record {
  brand = "visa";
  last4 = "4242";
  exp_month = 12;
  exp_year = 2030;
  issuer = "";
  issuer_country = "";
  funding = "";
  three_ds_result = "";
  wallet_type = "";
  bank_country = "";
  bank_code = "";
  token_provider = "";
}

abbrev order : NewPaymentParams
order = record {
  merchant_id = "m1";
  idempotency_key = "k1";
  request_hash = "";
  amount = usd 5000;
  capture_method = CaptureMethod.other "";
  payment_method_type = "card";
  payment_method = card;
  customer = nobody;
  description = "";
  statement_descriptor = "";
  return_url = "";
  metadata = [];
  live_mode = false;
}

abbrev uuid_text : Uuid → String
uuid_text _ = "u"

-- The payment that the order makes, and its event.
abbrev created : Payment × Event
unfolding fresh_payment
created =
    let p = fresh_payment uuid_text 7 order CaptureMethod.automatic second in
    (
      record p { status = Status.created; version = 1; updated_at = second },
      record {
        event_type = EventType.payment_created;
        from_status = none;
        to_status = Status.created;
        seq = 1;
        occurred_at = second;
        payload =
            ("amount", Value.num (pos 5000))
            ∷ ("currency", Value.text "USD")
            ∷ ("capture_method", Value.text "automatic")
            ∷ ("payment_method_type", Value.text "card")
            ∷ [];
      },
    )

order_created : new_payment uuid_text 7 order second ≡ ok (created.0, created.1)
unfolding new_payment created Money.validate is_supported_currency
order_created = refl

abbrev approval : AuthorizeParams
approval = record {
  provider = "mock";
  provider_reference = "ref";
  auth_expires_at = 0;
  details = none;
  fee_minor = pos 0;
}

abbrev refund : String → ℕ → Refund
refund id n = record {
  id = id;
  public_id = id;
  payment_id = "u";
  payment_public_id = "";
  merchant_id = "m1";
  idempotency_key = "";
  amount = usd n;
  status = RefundStatus.pending;
  reason = "";
  provider = "mock";
  provider_reference = "";
  failure_code = "";
  failure_message = "";
  metadata = [];
  created_at = minute;
  updated_at = minute;
  succeeded_at = none;
  version = 0;
  live_mode = false;
}

-- Authorized, partly captured, refunded in two parts; a third refund is refused.
abbrev life : List Call
life =
    Call.start_attempt "a1" "mock" "" second
    ∷ Call.authorize approval minute
    ∷ Call.capture (usd 4000) (pos 0) minute
    ∷ Call.reserve_refund (refund "r1" 1500) minute
    ∷ Call.mark_refunded (refund "r1" 1500) minute
    ∷ Call.reserve_refund (refund "r2" 2500) minute
    ∷ Call.reserve_refund (refund "r3" 1) minute
    ∷ Call.mark_refunded (refund "r2" 2500) minute
    ∷ []

life-Admissible : All Admissible life
life-Admissible = ground arith

life_ends_refunded : (run life created.0).status ≡ Status.refunded
unfolding run call created Attempts.start_attempt Authorization.authorize Authorization.capture
    Refunding.reserve_refund Refunding.mark_refunded Money.sub can_transition Money.greater_than
    Refunding.available_to_refund sub64 wrap64 ◌-ℤ◌ Money.add add64 ◌+ℤ◌ Money.equal
life_ends_refunded = refl

run-new_payment-IsValid_example : IsValid (run life created.0)
run-new_payment-IsValid_example =
    run-new_payment-IsValid uuid_text 7 order second life (omega arith, omega arith) order_created
      life-Admissible

replay-log_example :
    replay created.0.status created.0.version (log life created.0)
    ≡ some ((run life created.0).status, (run life created.0).version)
replay-log_example = replay-log life created.0

abbrev ended : Payment
unfolding created
ended = record created.0 { status = Status.voided }

terminal_absorbs_example : (run life ended).status ≡ ended.status
unfolding ended
terminal_absorbs_example = terminal_absorbs life ended refl

-- The payment after the authorization, ready to be captured.
abbrev authorized : Payment
authorized = run (Call.authorize approval minute ∷ []) created.0

capture-Decides_example :
    Decides
      (CanCapture (usd 4000) minute authorized)
      (Captures (usd 4000) minute authorized)
      authorized
      (Authorization.capture (usd 4000) (pos 0) minute authorized)
capture-Decides_example = capture-Decides (usd 4000) (pos 0) minute authorized

-- The payment of which 4000 are captured and 1500 refunded.
abbrev refunded_once : List Call
refunded_once =
    Call.authorize approval minute
    ∷ Call.capture (usd 4000) (pos 0) minute
    ∷ Call.reserve_refund (refund "r1" 1500) minute
    ∷ Call.mark_refunded (refund "r1" 1500) minute
    ∷ []

refunded_once-IsValid : IsValid (run refunded_once created.0)
refunded_once-IsValid =
    run-new_payment-IsValid uuid_text 7 order second refunded_once (omega arith, omega arith)
      order_created (ground arith)

reserve_refund-Decides_example :
    Decides
      (Fits (refund "r2" 2500) (run refunded_once created.0))
      (Reserves (refund "r2" 2500) minute (run refunded_once created.0))
      (run refunded_once created.0)
      (Refunding.reserve_refund (refund "r2" 2500) minute (run refunded_once created.0))
reserve_refund-Decides_example =
    reserve_refund-Decides (refund "r2" 2500) minute (run refunded_once created.0)
      (omega arith, omega arith) refunded_once-IsValid

refund-Fits : Fits (refund "r2" 2500) (run refunded_once created.0)
unfolding run call created Authorization.authorize Authorization.capture Refunding.reserve_refund
    Refunding.mark_refunded Money.sub can_transition Money.greater_than
    Refunding.available_to_refund sub64 wrap64 ◌-ℤ◌ Money.add add64 ◌+ℤ◌ Money.equal
refund-Fits = record {
  refundable = refl;
  same_currency = refl;
  positive = omega arith;
  within = omega arith;
}

release_refund-reserve_refund_example :
    (Refunding.release_refund
      (refund "r2" 2500)
      (2 * minute)
      (Refunding.reserve_refund (refund "r2" 2500) minute (run refunded_once created.0)).1).1
    ≡ record (run refunded_once created.0) {
      version = (run refunded_once created.0).version + 2;
      updated_at = 2 * minute;
    }
release_refund-reserve_refund_example =
    release_refund-reserve_refund (refund "r2" 2500) minute (2 * minute)
      (run refunded_once created.0) (omega arith, omega arith) refunded_once-IsValid refund-Fits

abbrev attempt : Attempt
unfolding new_attempt
attempt = new_attempt "a1" created.0 "mock" "" 1 second

can_failover_iff_example :
    (can_failover (mark_failed Category.declined_soft "insufficient_funds" "" "" minute attempt)
      ≡ true)
    ↔ AllowsFailover Category.declined_soft "insufficient_funds"
can_failover_iff_example =
    can_failover_iff Category.declined_soft "insufficient_funds" "" "" minute attempt

settle_all-first_example :
    settle_all
      (Report.succeeded "ref" minute ∷ Report.failed "late" "" minute ∷ [])
      (refund "r1" 1500)
    ≡ settle (Report.succeeded "ref" minute) (refund "r1" 1500)
settle_all-first_example =
    settle_all-first (Report.succeeded "ref" minute) (Report.failed "late" "" minute ∷ [])
      (refund "r1" 1500)
