-- ===== src/Payment/ProviderError.antt =====
-- internal/payment/domain/provider_error.go: the standard categories of provider errors, and what
-- each means for retries, failover and the state of an attempt.
use payment_gateway.Base.{
  String, Bool, true, false, Option, none, some, List, [], ◌∷◌, any, text_eq, not, if◌then◌else◌,
}
use payment_gateway.Payment.Status.{AttemptStatus}

-- `none` is the empty string, for no error.
pub data Category : Type 0 where
  no_error declined_hard declined_soft fraud_suspected authentication_required : Category
  authentication_failed invalid_request provider_config_error provider_unavailable : Category
  provider_rate_limited provider_timeout duplicate_request unsupported_operation unknown : Category

abbrev pub category_text : Category → String
category_text Category.no_error = ""
category_text Category.declined_hard = "declined_hard"
category_text Category.declined_soft = "declined_soft"
category_text Category.fraud_suspected = "fraud_suspected"
category_text Category.authentication_required = "authentication_required"
category_text Category.authentication_failed = "authentication_failed"
category_text Category.invalid_request = "invalid_request"
category_text Category.provider_config_error = "provider_config_error"
category_text Category.provider_unavailable = "provider_unavailable"
category_text Category.provider_rate_limited = "provider_rate_limited"
category_text Category.provider_timeout = "provider_timeout"
category_text Category.duplicate_request = "duplicate_request"
category_text Category.unsupported_operation = "unsupported_operation"
category_text Category.unknown = "unknown"

-- `categoryRule`
pub record CategoryRule : Type 0 where
  pub retry_same_provider : Bool
  pub can_failover : Bool
  pub attempt_status : AttemptStatus
  pub rest_code : String

abbrev rule : Bool → Bool → AttemptStatus → String → Option CategoryRule
rule r f a c =
    some (record { retry_same_provider = r; can_failover = f; attempt_status = a; rest_code = c })

-- `categoryRules`; the empty category has no row.
abbrev pub category_rules : Category → Option CategoryRule
category_rules Category.no_error = none
category_rules Category.declined_hard = rule false false AttemptStatus.declined "card_declined"
category_rules Category.declined_soft = rule true true AttemptStatus.declined "card_declined"
category_rules Category.fraud_suspected = rule false false AttemptStatus.declined "card_declined"
category_rules Category.authentication_required =
    rule false false AttemptStatus.requires_action "authentication_required"
category_rules Category.authentication_failed =
    rule false false AttemptStatus.declined "card_declined"
category_rules Category.invalid_request =
    rule false false AttemptStatus.declined "provider_rejected"
category_rules Category.provider_config_error =
    rule false true AttemptStatus.unavailable "provider_unavailable"
category_rules Category.provider_unavailable =
    rule false true AttemptStatus.unavailable "provider_unavailable"
category_rules Category.provider_rate_limited =
    rule true true AttemptStatus.unavailable "provider_unavailable"
category_rules Category.provider_timeout = rule false false AttemptStatus.unknown "provider_timeout"
category_rules Category.duplicate_request =
    rule false false AttemptStatus.declined "provider_rejected"
category_rules Category.unsupported_operation =
    rule false false AttemptStatus.declined "provider_rejected"
category_rules Category.unknown = rule false false AttemptStatus.unknown "provider_timeout"

-- `IsRetryable`
abbrev pub is_retryable : Category → Bool
is_retryable c = elim (category_rules c) [ some r ↦ r.retry_same_provider | none ↦ false ]

-- `ProviderErrorCategory.CanFailover`
abbrev pub can_failover_category : Category → Bool
can_failover_category c = elim (category_rules c) [ some r ↦ r.can_failover | none ↦ false ]

-- `ProviderErrorCategory.AttemptStatus`
abbrev pub attempt_status_of : Category → AttemptStatus
attempt_status_of c = elim (category_rules c) [
  | some r ↦ r.attempt_status
  | none ↦ AttemptStatus.unknown
]

-- `RESTCode`
abbrev pub rest_code : Category → String
rest_code c = elim (category_rules c) [ some r ↦ r.rest_code | none ↦ "provider_timeout" ]

-- `IsValid`
abbrev pub is_valid_category : Category → Bool
is_valid_category c = elim (category_rules c) [ some _ ↦ true | none ↦ false ]

abbrev member : List String → String → Bool
member codes code = any (λ c. text_eq c code) codes

-- `softDeclineFailoverWhitelist`
abbrev pub soft_decline_failover_whitelist : List String
soft_decline_failover_whitelist = "processing_error" ∷ "issuer_unavailable" ∷ "try_again_later" ∷ []

abbrev is_declined_soft : Category → Bool
is_declined_soft Category.declined_soft = true
is_declined_soft _ = false

-- `CanFailoverDecline`
unfoldable pub can_failover_decline : Category → String → Bool
can_failover_decline c decline_code =
    if not (can_failover_category c)
    then false
    else if is_declined_soft c
    then member soft_decline_failover_whitelist decline_code
    else true

-- `retryableDeclineCodes`
abbrev pub retryable_decline_codes : List String
retryable_decline_codes =
    "insufficient_funds" ∷ "try_again_later" ∷ "processing_error" ∷ "issuer_unavailable"
    ∷ "authentication_failed" ∷ "velocity_exceeded" ∷ []

-- `IsRetryableDecline`
unfoldable pub is_retryable_decline : Category → String → Bool
is_retryable_decline Category.provider_unavailable _ = true
is_retryable_decline Category.provider_rate_limited _ = true
is_retryable_decline Category.provider_timeout _ = true
is_retryable_decline Category.provider_config_error _ = true
is_retryable_decline Category.unknown _ = true
is_retryable_decline Category.fraud_suspected _ = false
is_retryable_decline _ decline_code = member retryable_decline_codes decline_code

-- `Failure`
pub record Failure : Type 0 where
  pub category : Category
  pub code : String
  pub message : String
  pub provider : String
  pub retryable : Bool

abbrev is_fraud : Category → Bool
is_fraud Category.fraud_suspected = true
is_fraud _ = false

-- `PublicCode`
unfoldable pub public_code : Failure → String
public_code f =
    if is_fraud f.category
    then "generic_decline"
    else if text_eq f.code ""
    then rest_code f.category
    else f.code
