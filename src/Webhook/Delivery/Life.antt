-- ===== src/Webhook/Delivery/Life.antt =====
-- A delivery's life: any sequence of calls of the methods of internal/webhook/domain/delivery.go.
use payment_gateway.Base.{
  ◌≡◌, arith, ℕ, suc, zero, ◌≤◌, ◌<◌, String, Option, none, some, List, [], ◌∷◌,
}
use payment_gateway.Base.Clock.{Time}
use payment_gateway.Ids.{Uuid}
use payment_gateway.Webhook.Backoff.{Fraction, max_attempts, max_response_body_bytes}
use payment_gateway.Webhook.Truncate.{bytes, prefix, front, trim, truncate}
use payment_gateway.Webhook.Delivery as Machine
use payment_gateway.Webhook.Delivery.{Status, Delivery, Event, Outcome, new_delivery, kept_body}

pub data Call : Type 0 where
  claim : Time → Call
  apply_outcome : Uuid → Time → Outcome → Fraction → Call
  reap : Time → Call
  cancel : Time → String → Call
  reset_for_retry : Time → Call
  release : Time → Time → String → Call

-- The delivery after the call, whether it succeeded or not.
unfoldable pub call : Call → Delivery → Delivery
call (Call.claim now) d = (Machine.claim now d).1
call (Call.apply_outcome id now o rnd) d = (Machine.apply_outcome id now o rnd d).1
call (Call.reap now) d = (Machine.reap now d).1
call (Call.cancel now reason) d = (Machine.cancel now reason d).1
call (Call.reset_for_retry now) d = (Machine.reset_for_retry now d).1
call (Call.release now retry_in reason) d = (Machine.release now retry_in reason d).1

unfoldable pub run : List Call → Delivery → Delivery
run [] d = d
run (c ∷ cs) d = run cs (call c d)

abbrev pub FitsBody : Option String → Type 0
FitsBody none = Unit
FitsBody (some b) = bytes b ≤ max_response_body_bytes

pub record IsValid (d : Delivery) : Type 0 where
  pub within : d.attempt_no ≤ max_attempts
  pub untried : d.status ≡ Status.pending → d.attempt_no ≡ 0
  pub tried : d.status ≡ Status.in_flight → 1 ≤ d.attempt_no
  pub left : d.status ≡ Status.failed → d.attempt_no < max_attempts
  pub used_up : d.status ≡ Status.dead_letter → d.attempt_no ≡ max_attempts
  pub body_fits : FitsBody d.last_response_body

-- Cutting never makes a text longer.
front-le : (s : String) → bytes (front s) ≤ bytes s
front-le String.[] = omega arith
front-le (String.◌∷◌ c String.[]) = omega arith
front-le (String.◌∷◌ c (String.◌∷◌ d s)) = omega (arith, front-le (String.◌∷◌ d s))

trim-le : (i : ℕ) (s : String) → bytes (trim i s) ≤ bytes s
unfolding trim
trim-le zero s = omega arith
trim-le (suc i) s = ground (arith, front-le s, trim-le i (front s))

prefix-le : (n : ℕ) (s : String) → bytes (prefix n s) ≤ n
prefix-le zero s = omega arith
prefix-le (suc n) String.[] = omega arith
prefix-le (suc n) (String.◌∷◌ c s) = omega (arith, prefix-le n s)

truncate-le : (n : ℕ) (s : String) → bytes (truncate n s) ≤ n
unfolding truncate
truncate-le n s = ground (arith, trim-le 3 (prefix n s), prefix-le n s)

kept_body-FitsBody : (o : Outcome) → FitsBody (kept_body o)
kept_body-FitsBody o = ground (arith, truncate-le max_response_body_bytes o.body)

module _ (d : Delivery) (v : IsValid d) where
  claim-IsValid : (now : Time) → IsValid (Machine.claim now d).1
  unfolding Machine.claim
  claim-IsValid now = ground (arith, v)

  apply_outcome-IsValid :
      (id : Uuid) (now : Time) (o : Outcome) (rnd : Fraction)
      → IsValid (Machine.apply_outcome id now o rnd d).1
  unfolding Machine.apply_outcome
  apply_outcome-IsValid id now o rnd = ground (arith, v, kept_body-FitsBody o)

  reap-IsValid : (now : Time) → IsValid (Machine.reap now d).1
  unfolding Machine.reap
  reap-IsValid now = ground (arith, v)

  cancel-IsValid : (now : Time) (reason : String) → IsValid (Machine.cancel now reason d).1
  unfolding Machine.cancel
  cancel-IsValid now reason = ground (arith, v)

  reset_for_retry-IsValid : (now : Time) → IsValid (Machine.reset_for_retry now d).1
  unfolding Machine.reset_for_retry
  reset_for_retry-IsValid now = ground (arith, v)

  release-IsValid :
      (now retry_in : Time) (reason : String) → IsValid (Machine.release now retry_in reason d).1
  unfolding Machine.release
  release-IsValid now retry_in reason = ground (arith, v)

call-IsValid : (c : Call) (d : Delivery) → IsValid d → IsValid (call c d)
unfolding call
call-IsValid (Call.claim now) d v = claim-IsValid d v now
call-IsValid (Call.apply_outcome id now o rnd) d v = apply_outcome-IsValid d v id now o rnd
call-IsValid (Call.reap now) d v = reap-IsValid d v now
call-IsValid (Call.cancel now reason) d v = cancel-IsValid d v now reason
call-IsValid (Call.reset_for_retry now) d v = reset_for_retry-IsValid d v now
call-IsValid (Call.release now retry_in reason) d v = release-IsValid d v now retry_in reason

pub run-IsValid : (cs : List Call) (d : Delivery) → IsValid d → IsValid (run cs d)
unfolding run
run-IsValid [] d v = v
run-IsValid (c ∷ cs) d v = run-IsValid cs (call c d) (call-IsValid c d v)

new_delivery-IsValid :
    (id : Uuid) (ev : Event) (endpoint_id : Uuid) (now : Time)
    → IsValid (new_delivery id ev endpoint_id now)
unfolding new_delivery
new_delivery-IsValid id ev endpoint_id now = ground arith

-- Whatever calls follow `NewDelivery`, the attempt number stays at most 10; a pending delivery has
-- made no attempt, one in flight at least one, a failed one has attempts left and a dead letter has
-- none; and a kept response body has at most 4096 bytes.
pub run-new_delivery-IsValid :
    (id : Uuid) (ev : Event) (endpoint_id : Uuid) (now : Time) (cs : List Call)
    → IsValid (run cs (new_delivery id ev endpoint_id now))
run-new_delivery-IsValid id ev endpoint_id now cs =
    run-IsValid cs (new_delivery id ev endpoint_id now) (new_delivery-IsValid id ev endpoint_id now)
