-- ===== src/Payment/Attempt.antt =====
-- internal/payment/domain/attempt.go: one call of a provider's authorize, and how it ends.
use payment_gateway.Base.{
  ℕ, String, Bool, true, false, Option, none, some, ◌-◌, ◌/◌, ltb, text_eq, if◌then◌else◌,
}
use payment_gateway.Payment.Status.{AttemptStatus}
use payment_gateway.Payment.ProviderError.{Category, attempt_status_of, can_failover_decline}
use payment_gateway.Payment.Model.{Attempt, Payment, NextAction, Time}

-- `NewAttempt`; `id` is the text of a fresh UUID.
unfoldable pub new_attempt : String → Payment → String → String → ℕ → Time → Attempt
new_attempt id p provider route_reason number now = record {
  id = id;
  payment_id = p.id;
  merchant_id = p.merchant_id;
  attempt_no = number;
  operation = "authorize";
  provider = provider;
  provider_reference = "";
  status = AttemptStatus.pending;
  error_category = Category.no_error;
  error_code = "";
  error_message = "";
  route_reason = route_reason;
  next_action = none;
  latency_ms = none;
  created_at = now;
  completed_at = none;
}

-- `complete`: the latency in whole milliseconds, never below 0.
abbrev pub complete : Time → Attempt → Attempt
complete now a = record a {
  completed_at = some now;
  latency_ms = some (if ltb now a.created_at then 0 else (now - a.created_at) / 1_000_000);
}

-- `MarkApproved`
unfoldable pub mark_approved : String → Time → Attempt → Attempt
mark_approved provider_ref now a = complete now (record a {
  status = AttemptStatus.approved;
  provider_reference = provider_ref;
  error_category = Category.no_error;
  error_code = "";
  error_message = "";
})

-- `MarkRequiresAction`
unfoldable pub mark_requires_action : String → Option NextAction → Time → Attempt → Attempt
mark_requires_action provider_ref next now a = complete now (record a {
  status = AttemptStatus.requires_action;
  provider_reference = provider_ref;
  next_action = next;
  error_category = Category.authentication_required;
})

-- A failure that asks for authentication is stored as declined.
abbrev failed_status : AttemptStatus → AttemptStatus
failed_status AttemptStatus.requires_action = AttemptStatus.declined
failed_status s = s

-- A new reference, unless it is empty.
abbrev pub or_keep : String → String → String
or_keep new old = if text_eq new "" then old else new

-- `MarkFailed`
unfoldable pub mark_failed : Category → String → String → String → Time → Attempt → Attempt
mark_failed cat code message provider_ref now a = complete now (record a {
  status = failed_status (attempt_status_of cat);
  error_category = cat;
  error_code = code;
  error_message = message;
  provider_reference = or_keep provider_ref a.provider_reference;
})

-- `Resolve`
unfoldable pub resolve : AttemptStatus → String → Time → Attempt → Attempt
resolve status provider_ref now a =
    complete now
      (record a { status = status; provider_reference = or_keep provider_ref a.provider_reference })

abbrev failover_by_status : AttemptStatus → Category → String → Bool
failover_by_status AttemptStatus.unavailable c code = true
failover_by_status AttemptStatus.declined c code = can_failover_decline c code
failover_by_status _ c code = false

-- `Attempt.CanFailover`
unfoldable pub can_failover : Attempt → Bool
can_failover a = failover_by_status a.status a.error_category a.error_code
