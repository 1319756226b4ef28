-- ===== src/Payment/Refund.antt =====
-- internal/payment/domain/refund.go: the refund and its two ends.
use payment_gateway.Base.{
  String, Bool, true, false, none, some, List, [], ◌∷◌, ◌+◌, ◌||◌, any, not, text_eq, if◌then◌else◌,
}
use payment_gateway.Base.Action.{Result, ok, err}
use payment_gateway.Base.Method.{Method, raise_if, get, modify, ◌>>=◌, ◌>>◌}
use payment_gateway.Ids.{Uuid, format, prefix_refund}
use payment_gateway.Money.{Money}
use payment_gateway.Payment.Status.{RefundStatus}
use payment_gateway.Payment.Model.{
  Refund, Payment, Metadata, Time, PaymentError, invalid_transition,
}

-- `refundReasons`
abbrev pub refund_reasons : List String
refund_reasons = "requested_by_customer" ∷ "duplicate" ∷ "fraudulent" ∷ "other" ∷ []

-- `IsValidRefundReason`
abbrev pub is_valid_refund_reason : String → Bool
is_valid_refund_reason r = text_eq r "" || any (λ x. text_eq x r) refund_reasons

-- `NewRefund`; `u` is a fresh UUID and `uuid_text` prints one.
unfoldable pub new_refund :
    (Uuid → String)
    → Uuid
    → Payment
    → String
    → Money
    → String
    → Metadata
    → Time
    → Result PaymentError Refund
new_refund uuid_text u p idempotency_key amount reason metadata now =
    if not (is_valid_refund_reason reason)
    then err invalid_transition
    else ok (record {
      id = uuid_text u;
      public_id = format prefix_refund u;
      payment_id = p.id;
      payment_public_id = p.public_id;
      merchant_id = p.merchant_id;
      idempotency_key = idempotency_key;
      amount = amount;
      status = RefundStatus.pending;
      reason = reason;
      provider = p.selected_provider;
      provider_reference = "";
      failure_code = "";
      failure_message = "";
      metadata = metadata;
      created_at = now;
      updated_at = now;
      succeeded_at = none;
      version = 0;
      live_mode = p.live_mode;
    })

abbrev pub is_pending : RefundStatus → Bool
is_pending RefundStatus.pending = true
is_pending _ = false

-- `Refund.Succeed`
unfoldable pub succeed : String → Time → Method Refund PaymentError (Unit {0})
succeed provider_ref now = do
  r ← get
  raise_if (not (is_pending r.status)) invalid_transition
  modify (λ r. record r {
    status = RefundStatus.succeeded;
    provider_reference = provider_ref;
    succeeded_at = some now;
    updated_at = now;
    version = r.version + 1;
  })

-- `Refund.Fail`
unfoldable pub fail : String → String → Time → Method Refund PaymentError (Unit {0})
fail code message now = do
  r ← get
  raise_if (not (is_pending r.status)) invalid_transition
  modify (λ r. record r {
    status = RefundStatus.failed;
    failure_code = code;
    failure_message = message;
    updated_at = now;
    version = r.version + 1;
  })
