-- ===== src/Payment/Status.antt =====
-- internal/payment/domain/status.go: the states of a payment, an attempt and a refund, and the
-- table of legal transitions.
use payment_gateway.Base.{ℕ, String, Bool, true, false, ◌==◌, List, [], ◌∷◌, any}

pub data Status : Type 0 where
  created requires_action authorized captured partially_refunded refunded : Status
  voided failed expired disputed chargeback_won chargeback_lost : Status

-- The strings of the constants, which events carry.
abbrev pub status_text : Status → String
status_text Status.created = "created"
status_text Status.requires_action = "requires_action"
status_text Status.authorized = "authorized"
status_text Status.captured = "captured"
status_text Status.partially_refunded = "partially_refunded"
status_text Status.refunded = "refunded"
status_text Status.voided = "voided"
status_text Status.failed = "failed"
status_text Status.expired = "expired"
status_text Status.disputed = "disputed"
status_text Status.chargeback_won = "chargeback_won"
status_text Status.chargeback_lost = "chargeback_lost"

abbrev pub rank : Status → ℕ
rank Status.created = 0
rank Status.requires_action = 1
rank Status.authorized = 2
rank Status.captured = 3
rank Status.partially_refunded = 4
rank Status.refunded = 5
rank Status.voided = 6
rank Status.failed = 7
rank Status.expired = 8
rank Status.disputed = 9
rank Status.chargeback_won = 10
rank Status.chargeback_lost = 11

-- `==` on states.
abbrev pub status_eq : Status → Status → Bool
status_eq s t = rank s == rank t

-- `AllStatuses`
abbrev pub all_statuses : List Status
all_statuses =
    Status.created ∷ Status.requires_action ∷ Status.authorized ∷ Status.captured
    ∷ Status.partially_refunded ∷ Status.refunded ∷ Status.voided ∷ Status.failed ∷ Status.expired
    ∷ Status.disputed ∷ Status.chargeback_won ∷ Status.chargeback_lost ∷ []

-- `Status.IsTerminal`
abbrev pub is_terminal : Status → Bool
is_terminal Status.voided = true
is_terminal Status.failed = true
is_terminal Status.expired = true
is_terminal Status.chargeback_lost = true
is_terminal _ = false

-- `transitions`
pub transitions : Status → List Status
transitions Status.created =
    Status.requires_action ∷ Status.authorized ∷ Status.captured ∷ Status.failed ∷ Status.expired
    ∷ []
transitions Status.requires_action =
    Status.authorized ∷ Status.captured ∷ Status.failed ∷ Status.expired ∷ Status.voided ∷ []
transitions Status.authorized = Status.captured ∷ Status.voided ∷ []
transitions Status.captured = Status.partially_refunded ∷ Status.refunded ∷ Status.disputed ∷ []
transitions Status.partially_refunded =
    Status.partially_refunded ∷ Status.refunded ∷ Status.disputed ∷ []
transitions Status.refunded = Status.disputed ∷ []
transitions Status.disputed = Status.chargeback_won ∷ Status.chargeback_lost ∷ []
transitions Status.chargeback_won =
    Status.disputed ∷ Status.partially_refunded ∷ Status.refunded ∷ []
transitions Status.voided = []
transitions Status.failed = []
transitions Status.expired = []
transitions Status.chargeback_lost = []

-- `CanTransition`
unfoldable pub can_transition : Status → Status → Bool
unfolding transitions
can_transition from to = any (λ t. status_eq t to) (transitions from)

-- A string that is none of the constants is `other`; the empty string is `other ""`.
pub data CaptureMethod : Type 0 where
  automatic manual : CaptureMethod
  other : String → CaptureMethod

abbrev pub capture_method_text : CaptureMethod → String
capture_method_text CaptureMethod.automatic = "automatic"
capture_method_text CaptureMethod.manual = "manual"
capture_method_text (CaptureMethod.other s) = s

pub data AttemptStatus : Type 0 where
  pending requires_action approved declined unavailable unknown : AttemptStatus

-- `AttemptStatus.IsTerminal`
abbrev pub is_attempt_terminal : AttemptStatus → Bool
is_attempt_terminal AttemptStatus.approved = true
is_attempt_terminal AttemptStatus.declined = true
is_attempt_terminal AttemptStatus.unavailable = true
is_attempt_terminal _ = false

-- `AttemptStatus.IsOpen`
abbrev pub is_open : AttemptStatus → Bool
is_open AttemptStatus.pending = true
is_open AttemptStatus.requires_action = true
is_open AttemptStatus.unknown = true
is_open _ = false

pub data RefundStatus : Type 0 where
  pending succeeded failed : RefundStatus

pub data VoidReason : Type 0 where
  merchant_request authorization_expired capture_failed_cleanup risk_decline : VoidReason
  other : String → VoidReason

abbrev pub void_reason_text : VoidReason → String
void_reason_text VoidReason.merchant_request = "merchant_request"
void_reason_text VoidReason.authorization_expired = "authorization_expired"
void_reason_text VoidReason.capture_failed_cleanup = "capture_failed_cleanup"
void_reason_text VoidReason.risk_decline = "risk_decline"
void_reason_text (VoidReason.other s) = s
