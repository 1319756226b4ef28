-- ===== src/Payment/Model.antt =====
-- internal/payment/domain: the records of payment.go, attempt.go and refund.go, the events, and the
-- errors of errors.go (by their code; the messages are left out).
use payment_gateway.Base.{ℕ, String, Bool, Option, List, ◌*◌}
use payment_gateway.Base.Int.{ℤ}
pub use payment_gateway.Base.Clock.{Time}
use payment_gateway.Base.Clock.{minute, hour}
use payment_gateway.Money.{Money}
use payment_gateway.Payment.Status.{Status, CaptureMethod, AttemptStatus, RefundStatus, VoidReason}
use payment_gateway.Payment.ProviderError.{Category, Failure}

pub data PaymentError : Type 0 where
  invalid_transition amount_exceeds_authorized refund_exceeds_available : PaymentError
  currency_mismatch amount_too_small invalid_currency payment_not_refundable : PaymentError
  payment_disputed payment_expired void_not_allowed operation_in_progress : PaymentError
  payment_method_missing metadata_too_large : PaymentError

-- `DefaultActionWindow`, `DefaultCreatedTTL` and `DefaultAuthValidity`
abbrev pub default_action_window : Time
default_action_window = 30 * minute

abbrev pub default_created_ttl : Time
default_created_ttl = hour

abbrev pub default_auth_validity : Time
default_auth_validity = 7 * (24 * hour)

pub data EventType : Type 0 where
  payment_created payment_requires_action payment_authorized payment_captured : EventType
  payment_voided payment_failed payment_expired : EventType
  refund_created refund_succeeded refund_failed : EventType

-- What a payload holds under a key. A time is printed as RFC 3339 in UTC; the model keeps it.
pub data Value : Type 0 where
  num : ℤ → Value
  text : String → Value
  flag : Bool → Value
  time : Time → Value

abbrev pub Payload : Type 0
Payload = List (String × Value)

abbrev pub Metadata : Type 0
Metadata = List (String × String)

pub record Event : Type 0 where
  pub event_type : EventType
  pub from_status : Option Status
  pub to_status : Status
  pub seq : ℕ
  pub occurred_at : Time
  pub payload : Payload

pub record Customer : Type 0 where
  pub id : String
  pub email : String
  pub name : String
  pub phone : String
  pub ip_address : String
  pub user_agent : String
  pub billing_country : String
  pub billing_postal_code : String

pub record PaymentMethodDetails : Type 0 where
  pub brand : String
  pub last4 : String
  pub exp_month : ℕ
  pub exp_year : ℕ
  pub issuer : String
  pub issuer_country : String
  pub funding : String
  pub three_ds_result : String
  pub wallet_type : String
  pub bank_country : String
  pub bank_code : String
  pub token_provider : String

pub record NextAction : Type 0 where
  pub action_type : String
  pub url : String
  pub method : String
  pub form_fields : Metadata
  pub acs_url : String
  pub creq : String
  pub txn_id : String
  pub version : String
  pub display : Metadata
  pub expires_at : Time

pub record Attempt : Type 0 where
  pub id : String
  pub payment_id : String
  pub merchant_id : String
  pub attempt_no : ℕ
  pub operation : String
  pub provider : String
  pub provider_reference : String
  pub status : AttemptStatus
  pub error_category : Category
  pub error_code : String
  pub error_message : String
  pub route_reason : String
  pub next_action : Option NextAction
  pub latency_ms : Option ℕ
  pub created_at : Time
  pub completed_at : Option Time

pub record Payment : Type 0 where
  pub id : String
  pub public_id : String
  pub merchant_id : String
  pub idempotency_key : String
  pub idempotency_request_hash : String
  pub amount : Money
  pub capture_method : CaptureMethod
  pub status : Status
  pub amount_authorized : Money
  pub amount_captured : Money
  pub amount_refunded : Money
  pub amount_refund_pending : Money
  pub payment_method_type : String
  pub payment_method_details : PaymentMethodDetails
  pub customer : Customer
  pub description : String
  pub statement_descriptor : String
  pub return_url : String
  pub selected_provider : String
  pub provider_reference : String
  pub failure : Option Failure
  pub expires_at : Option Time
  pub auth_expires_at : Option Time
  pub authorized_at : Option Time
  pub captured_at : Option Time
  pub void_reason : Option VoidReason
  pub voided_at : Option Time
  pub metadata : Metadata
  pub created_at : Time
  pub updated_at : Time
  pub version : ℕ
  pub live_mode : Bool
  pub attempts : List Attempt

pub record NewPaymentParams : Type 0 where
  pub merchant_id : String
  pub idempotency_key : String
  pub request_hash : String
  pub amount : Money
  pub capture_method : CaptureMethod
  pub payment_method_type : String
  pub payment_method : PaymentMethodDetails
  pub customer : Customer
  pub description : String
  pub statement_descriptor : String
  pub return_url : String
  pub metadata : Metadata
  pub live_mode : Bool

pub record AuthorizeParams : Type 0 where
  pub provider : String
  pub provider_reference : String
  pub auth_expires_at : Time
  pub details : Option PaymentMethodDetails
  pub fee_minor : ℤ

pub record Refund : Type 0 where
  pub id : String
  pub public_id : String
  pub payment_id : String
  pub payment_public_id : String
  pub merchant_id : String
  pub idempotency_key : String
  pub amount : Money
  pub status : RefundStatus
  pub reason : String
  pub provider : String
  pub provider_reference : String
  pub failure_code : String
  pub failure_message : String
  pub metadata : Metadata
  pub created_at : Time
  pub updated_at : Time
  pub succeeded_at : Option Time
  pub version : ℕ
  pub live_mode : Bool
