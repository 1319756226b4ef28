-- ===== src/Webhook/Delivery.antt =====
-- internal/webhook/domain/delivery.go: one event's delivery to one endpoint, as a state machine.
pub mod Life
pub mod Budget
use payment_gateway.Base.{
  ℕ, ◌+◌, ◌-◌, ◌/◌, ◌==◌, ◌&&◌, ◌||◌, ltb, leb, min, not, String, Bool, true, false, Option, none,
  some, text_eq, if◌then◌else◌,
}
use payment_gateway.Base.Action.{Result, ok, err}
use payment_gateway.Base.Method.{Method, pure, raise_if, get, modify, ◌>>=◌, ◌>>◌}
use payment_gateway.Base.Clock.{Time}
use payment_gateway.Ids.{Uuid}
use payment_gateway.Webhook.Backoff.{
  max_attempts, max_response_body_bytes, max_retry_after, Fraction, next_attempt_at,
}
use payment_gateway.Webhook.Truncate.{truncate}

pub data Status : Type 0 where
  pending in_flight succeeded failed dead_letter canceled : Status

-- `IsTerminal`
abbrev pub is_terminal : Status → Bool
is_terminal Status.succeeded = true
is_terminal Status.dead_letter = true
is_terminal Status.canceled = true
is_terminal _ = false

-- `ErrInvalidTransition` and `ErrDeliveryNotRetryable`
pub data DeliveryError : Type 0 where
  invalid_transition not_retryable : DeliveryError

-- `Event` of event.go; the payload is its bytes.
pub record Event : Type 0 where
  pub id : Uuid
  pub merchant_id : Uuid
  pub event_type : String
  pub resource_type : String
  pub resource_id : String
  pub payment_id : String
  pub livemode : Bool
  pub payload : String
  pub occurred_at : Time
  pub created_at : Time

pub record Delivery : Type 0 where
  pub id : Uuid
  pub event_id : Uuid
  pub endpoint_id : Uuid
  pub merchant_id : Uuid
  pub attempt_no : ℕ
  pub status : Status
  pub next_attempt_at : Time
  pub last_attempt_at : Option Time
  pub last_response_status : Option ℕ
  pub last_response_body : Option String
  pub last_error : Option String
  pub delivered_at : Option Time
  pub created_at : Time
  pub updated_at : Time
  pub version : ℕ
  pub event_type : String
  pub event_payload : String
  pub livemode : Bool
  pub occurred_at : Time

-- `NewDelivery`, under a fresh id and to the endpoint of an id.
unfoldable pub new_delivery : Uuid → Event → Uuid → Time → Delivery
new_delivery id ev endpoint_id now = record {
  id = id;
  event_id = ev.id;
  endpoint_id = endpoint_id;
  merchant_id = ev.merchant_id;
  attempt_no = 0;
  status = Status.pending;
  next_attempt_at = now;
  last_attempt_at = none;
  last_response_status = none;
  last_response_body = none;
  last_error = none;
  delivered_at = none;
  created_at = now;
  updated_at = now;
  version = 0;
  event_type = ev.event_type;
  event_payload = ev.payload;
  livemode = ev.livemode;
  occurred_at = ev.occurred_at;
}

abbrev pub is_waiting : Status → Bool
is_waiting Status.pending = true
is_waiting Status.failed = true
is_waiting _ = false

-- `IsDue`
abbrev pub is_due : Time → Delivery → Bool
is_due now d = is_waiting d.status && not (ltb now d.next_attempt_at)

-- `Claim`
unfoldable pub claim : Time → Method Delivery DeliveryError (Unit {0})
claim now = do
  d ← get
  raise_if (not (is_due now d)) invalid_transition
  modify (λ d. record d {
    status = Status.in_flight;
    attempt_no = d.attempt_no + 1;
    version = d.version + 1;
    updated_at = now;
  })

-- `Outcome`; status 0 is no response, and a `Retry-After` of 0 is none.
pub record Outcome : Type 0 where
  pub status_code : ℕ
  pub body : String
  pub error : Option String
  pub retry_after : Time
  pub duration : Time

-- `Outcome.Succeeded`
abbrev pub is_success : Outcome → Bool
is_success o = leb 200 o.status_code && ltb o.status_code 300

pub data Transition : Type 0 where
  to_succeeded to_retry to_dead_letter to_gone : Transition

pub record Attempt : Type 0 where
  pub id : Uuid
  pub delivery_id : Uuid
  pub attempt_no : ℕ
  pub response_status : Option ℕ
  pub response_body : Option String
  pub error : Option String
  pub duration_ms : ℕ
  pub attempted_at : Time

abbrev pub is_in_flight : Status → Bool
is_in_flight Status.in_flight = true
is_in_flight _ = false

-- The response as it is kept: the status, the body cut to the limit, and the error's text.
abbrev pub kept_status : Outcome → Option ℕ
kept_status o = if ltb 0 o.status_code then some o.status_code else none

abbrev pub kept_body : Outcome → Option String
kept_body o =
    let body = truncate max_response_body_bytes o.body in
    if ltb 0 o.status_code && not (text_eq body "") then some body else none

abbrev pub kept_error : Outcome → Option String
kept_error o = elim o.error [ some msg ↦ some (truncate 1024 msg) | none ↦ none ]

-- The record of the attempt.
unfoldable pub attempt_of : Uuid → Time → Outcome → Delivery → Attempt
attempt_of id now o d = record {
  id = id;
  delivery_id = d.id;
  attempt_no = d.attempt_no;
  response_status = kept_status o;
  response_body = kept_body o;
  error = kept_error o;
  duration_ms = o.duration / 1_000_000;
  attempted_at = now;
}

-- What `ApplyOutcome` writes before its `switch`.
unfoldable pub record_outcome : Time → Outcome → Delivery → Delivery
record_outcome now o d = record d {
  last_attempt_at = some now;
  last_response_status = kept_status o;
  last_response_body = kept_body o;
  last_error = kept_error o;
  version = d.version + 1;
  updated_at = now;
}

-- When the next attempt is made after a failure.
abbrev pub retry_at : Time → Outcome → Fraction → Delivery → Time
retry_at now o rnd d =
    if o.status_code == 429 && ltb 0 o.retry_after
    then now + min o.retry_after max_retry_after
    else next_attempt_at now d.attempt_no rnd

-- The `switch` of `ApplyOutcome`.
unfoldable pub conclude : Time → Outcome → Fraction → Delivery → Transition × Delivery
conclude now o rnd d =
    if is_success o
    then (Transition.to_succeeded, record d { status = Status.succeeded; delivered_at = some now })
    else if o.status_code == 410
    then (
      Transition.to_gone,
      record d {
        status = Status.canceled;
        last_error = some "endpoint returned 410 Gone; endpoint disabled";
      },
    )
    else if leb max_attempts d.attempt_no
    then (Transition.to_dead_letter, record d { status = Status.dead_letter })
    else (
      Transition.to_retry,
      record d { status = Status.failed; next_attempt_at = retry_at now o rnd d },
    )

-- `ApplyOutcome`; `id` is a fresh id for the attempt.
unfoldable pub apply_outcome :
    Uuid → Time → Outcome → Fraction → Method Delivery DeliveryError (Transition × Attempt)
unfolding attempt_of record_outcome conclude
apply_outcome id now o rnd d =
    if not (is_in_flight d.status)
    then (err invalid_transition, d)
    else let att = attempt_of id now o d in
      let (t, d') = conclude now o rnd (record_outcome now o d) in (ok (t, att), d')

-- `Reap`
unfoldable pub reap : Time → Method Delivery DeliveryError (Unit {0})
reap now = do
  d ← get
  raise_if (not (is_in_flight d.status)) invalid_transition
  modify (λ d. record d {
    last_error = some "in_flight timeout; reclaimed by reaper";
    next_attempt_at = now;
    status = if leb max_attempts d.attempt_no then Status.dead_letter else Status.failed;
    version = d.version + 1;
    updated_at = now;
  })

abbrev pub reason_or : String → Option String → Option String
reason_or reason old = if text_eq reason "" then old else some reason

-- `Cancel`: whether anything changed.
unfoldable pub cancel : Time → String → Delivery → Bool × Delivery
cancel now reason d = if is_terminal d.status then (false, d) else (
  true,
  record d {
    status = Status.canceled;
    last_error = reason_or reason d.last_error;
    version = d.version + 1;
    updated_at = now;
  },
)

-- `CanRetryManually`
abbrev pub can_retry_manually : Status → Bool
can_retry_manually Status.failed = true
can_retry_manually Status.dead_letter = true
can_retry_manually Status.succeeded = true
can_retry_manually _ = false

-- `ResetForRetry`
unfoldable pub reset_for_retry : Time → Method Delivery DeliveryError (Unit {0})
reset_for_retry now = do
  d ← get
  raise_if (not (can_retry_manually d.status)) not_retryable
  modify (λ d. record d {
    status = Status.pending;
    attempt_no = 0;
    next_attempt_at = now;
    delivered_at = none;
    version = d.version + 1;
    updated_at = now;
  })

-- `Release`
unfoldable pub release : Time → Time → String → Method Delivery DeliveryError (Unit {0})
release now retry_in reason = do
  d ← get
  raise_if (not (is_in_flight d.status)) invalid_transition
  modify (λ d. record d {
    attempt_no = d.attempt_no - 1;
    status = Status.failed;
    next_attempt_at = now + retry_in;
    last_error = reason_or reason d.last_error;
    version = d.version + 1;
    updated_at = now;
  })
