-- ===== src/Webhook/Examples.antt =====
-- A delivery that fails ten times, and the theorems on deliveries at it.
use payment_gateway.Base.{
  String, map, ◌↔◌, Option, some, ◌≡◌, refl, arith, ◌+◌, ◌*◌, ◌/◌, ◌≤◌, true, none, List, [], ◌∷◌,
  All,
}
use payment_gateway.Base.Clock.{second, hour}
use payment_gateway.Webhook.Backoff.{backoff, Fraction, next_attempt_at, max_attempts}
use payment_gateway.Webhook.Backoff.Bounds.{next_attempt_at-bounds}
use payment_gateway.Ids.{Uuid}
use payment_gateway.Base.Ascii.{trim_space}
use payment_gateway.Webhook.Endpoint.{Endpoint, EndpointStatus, accepts, matches, fan_out}
use payment_gateway.Webhook.Endpoint.FanOut.{
  Selected, Carries, fan_out-Selected, Admits, matches_iff,
}
use payment_gateway.Webhook.Delivery.{Status, Delivery, Event, Outcome, new_delivery}
use payment_gateway.Webhook.Delivery.Life.{Call, run, IsValid, run-new_delivery-IsValid}
use payment_gateway.Webhook.Delivery.Budget.{
  sent, sent-le, Round, rounds, IsFailure, rounds_exhaust,
}

abbrev captured : Event
captured = record {
  id = 1;
  merchant_id = 2;
  event_type = "payment.captured";
  resource_type = "payment";
  resource_id = "pay_1";
  payment_id = "pay_1";
  livemode = true;
  payload = "{}";
  occurred_at = 5;
  created_at = 6;
}

abbrev fresh : Delivery
unfolding new_delivery
fresh = new_delivery 8 captured 9 second

abbrev middle : Fraction
middle = record { num = 1; den = 2 }

abbrev unavailable : Outcome
unavailable = record {
  status_code = 503;
  body = "busy";
  error = none;
  retry_after = 0;
  duration = second;
}

-- A claim, a failure, a claim that is not due yet, and a cancellation.
abbrev life : List Call
life =
    Call.claim second
    ∷ Call.apply_outcome 10 (2 * second) unavailable middle
    ∷ Call.claim (3 * second)
    ∷ Call.cancel (4 * second) "endpoint deleted"
    ∷ []

run-new_delivery-IsValid_example : IsValid (run life (new_delivery 8 captured 9 second))
run-new_delivery-IsValid_example = run-new_delivery-IsValid 8 captured 9 second life

fresh-IsValid : IsValid fresh
unfolding fresh run
fresh-IsValid = run-new_delivery-IsValid 8 captured 9 second []

sent-le_example : sent life fresh + fresh.attempt_no ≤ max_attempts
sent-le_example = sent-le life fresh fresh-IsValid (refl, (refl, (refl, (refl, tt))))

abbrev failure : Round
failure = record { attempt_id = 11; answered_at = hour; outcome = unavailable; rnd = middle }

abbrev failures : List Round
failures =
    failure ∷ failure ∷ failure ∷ failure ∷ failure ∷ failure ∷ failure ∷ failure ∷ failure
    ∷ failure ∷ []

failures-IsFailure : All IsFailure failures
failures-IsFailure = ground arith

rounds_exhaust_example :
    ((rounds failures fresh).status ≡ Status.dead_letter)
    × ((rounds failures fresh).attempt_no ≡ max_attempts)
unfolding fresh run
rounds_exhaust_example = rounds_exhaust failures fresh refl failures-IsFailure (omega arith) refl

next_attempt_at-bounds_example :
    (second + backoff (2 + 1) * 4 / 5 ≤ next_attempt_at second 2 middle)
    × (next_attempt_at second 2 middle ≤ second + backoff (2 + 1) * 6 / 5)
    × (backoff (2 + 1) ≤ backoff (2 + 1 + 4))
next_attempt_at-bounds_example =
    next_attempt_at-bounds second 2 4 middle (omega arith) (omega arith)

abbrev endpoint : Uuid → List String → Endpoint
endpoint id events = record {
  id = id;
  merchant_id = 2;
  url = "https://example.test/hook";
  secrets = "s" ∷ [];
  enabled_events = events;
  status = EndpointStatus.enabled;
  livemode = true;
}

abbrev endpoints : List (Option Endpoint)
endpoints =
    some (endpoint 20 (" payment.* " ∷ []))
    ∷ none
    ∷ some (endpoint 21 ("refund.created" ∷ []))
    ∷ some (endpoint 22 [])
    ∷ []

two_of_four :
    map (λ d. d.endpoint_id) (fan_out (λ n. n) (λ n. second) captured endpoints) ≡ 20 ∷ 22 ∷ []
unfolding fan_out accepts new_delivery
two_of_four = refl

fan_out-Selected_example :
    Selected captured endpoints
      (map (λ d. d.endpoint_id) (fan_out (λ n. n) (λ n. second) captured endpoints))
    × All (Carries captured) (fan_out (λ n. n) (λ n. second) captured endpoints)
fan_out-Selected_example = fan_out-Selected (λ n. n) (λ n. second) captured endpoints

matches_iff_example :
    (matches "payment.captured" " payment.* " ≡ true)
    ↔ Admits (trim_space " payment.* ") "payment.captured"
matches_iff_example = matches_iff "payment.captured" " payment.* "
