-- ===== src/Payment/Create.antt =====
-- internal/payment/domain/payment.go: `NewPayment`, and `emit` and `transition`, through which every
-- change of state goes.
use Prim.Native.String.{len}
use payment_gateway.Base.{
  String, Bool, true, false, Option, none, some, [], ◌∷◌, ◌+◌, ◌||◌, not, text_eq, if◌then◌else◌,
  length, ltb, any,
}
use payment_gateway.Base.Action.{Result, ok, err, map_err, fail_if, ◌>>=◌, ◌>>◌}
use payment_gateway.Base.Method.{Method}
use payment_gateway.Ids.{Uuid, format, prefix_payment}
use payment_gateway.Money.{validate, is_positive, zero_of}
use payment_gateway.Payment.Status.{Status, CaptureMethod, capture_method_text, can_transition}
use payment_gateway.Payment.Model.{
  Payment, NewPaymentParams, Event, EventType, Value, Payload, Time, PaymentError,
  invalid_transition, invalid_currency, amount_too_small, payment_method_missing,
  metadata_too_large, default_created_ttl,
}

-- `emit`: the new state and the next version, and the event that carries both.
unfoldable pub emit :
    EventType
    → Option Status
    → Status
    → Time
    → Payload
    → Payment
    → Result PaymentError Event × Payment
emit typ from to now payload p = (
  ok (record {
    event_type = typ;
    from_status = from;
    to_status = to;
    seq = p.version + 1;
    occurred_at = now;
    payload = payload;
  }),
  record p { status = to; version = p.version + 1; updated_at = now },
)

-- `transition`: `emit`, if the table allows the move.
unfoldable pub transition : EventType → Status → Time → Payload → Method Payment PaymentError Event
unfolding emit
transition typ to now payload p =
    if not (can_transition p.status to)
    then (err invalid_transition, p)
    else emit typ (some p.status) to now payload p

-- The empty capture method stands for automatic.
abbrev pub default_capture : CaptureMethod → CaptureMethod
default_capture CaptureMethod.automatic = CaptureMethod.automatic
default_capture CaptureMethod.manual = CaptureMethod.manual
default_capture (CaptureMethod.other s) =
    if text_eq s "" then CaptureMethod.automatic else CaptureMethod.other s

abbrev is_known_capture : CaptureMethod → Bool
is_known_capture CaptureMethod.automatic = true
is_known_capture CaptureMethod.manual = true
is_known_capture (CaptureMethod.other _) = false

abbrev metadata_entry_too_large : String × String → Bool
metadata_entry_too_large (k, v) = ltb 40 (len k) || ltb 500 (len v)

-- The guards of `NewPayment`, in the code's order; the result is the capture method in use.
unfoldable pub check_params : NewPaymentParams → Result PaymentError CaptureMethod
check_params params = do
  map_err (λ _. invalid_currency) (validate params.amount)
  fail_if (not (is_positive params.amount)) amount_too_small
  let capture_method = default_capture params.capture_method
  fail_if (not (is_known_capture capture_method)) invalid_transition
  fail_if (text_eq params.payment_method_type "") payment_method_missing
  fail_if (ltb 50 (length params.metadata)) metadata_too_large
  fail_if (any metadata_entry_too_large params.metadata) metadata_too_large
  ok capture_method

-- The record that `NewPayment` fills, before its first event.
unfoldable pub fresh_payment :
    (Uuid → String) → Uuid → NewPaymentParams → CaptureMethod → Time → Payment
fresh_payment uuid_text u params capture_method now = record {
  id = uuid_text u;
  public_id = format prefix_payment u;
  merchant_id = params.merchant_id;
  idempotency_key = params.idempotency_key;
  idempotency_request_hash = params.request_hash;
  amount = params.amount;
  capture_method = capture_method;
  status = Status.created;
  amount_authorized = zero_of params.amount.currency;
  amount_captured = zero_of params.amount.currency;
  amount_refunded = zero_of params.amount.currency;
  amount_refund_pending = zero_of params.amount.currency;
  payment_method_type = params.payment_method_type;
  payment_method_details = params.payment_method;
  customer = params.customer;
  description = params.description;
  statement_descriptor = params.statement_descriptor;
  return_url = params.return_url;
  selected_provider = "";
  provider_reference = "";
  failure = none;
  expires_at = some (now + default_created_ttl);
  auth_expires_at = none;
  authorized_at = none;
  captured_at = none;
  void_reason = none;
  voided_at = none;
  metadata = params.metadata;
  created_at = now;
  updated_at = now;
  version = 0;
  live_mode = params.live_mode;
  attempts = [];
}

-- `NewPayment`; `u` is a fresh UUID and `uuid_text` prints one.
unfoldable pub new_payment :
    (Uuid → String) → Uuid → NewPaymentParams → Time → Result PaymentError (Payment × Event)
unfolding check_params fresh_payment emit
new_payment uuid_text u params now = do
  capture_method ← check_params params
  let pay = fresh_payment uuid_text u params capture_method now
  let (r, pay') =
      emit EventType.payment_created none Status.created now
        (("amount", Value.num pay.amount.amount_minor)
          ∷ ("currency", Value.text pay.amount.currency)
          ∷ ("capture_method", Value.text (capture_method_text pay.capture_method))
          ∷ ("payment_method_type", Value.text pay.payment_method_type)
          ∷ [])
        pay
  ev ← r
  ok (pay', ev)
