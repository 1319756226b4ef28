-- ===== src/Webhook/Delivery/Budget.antt =====
-- The budget of attempts of a delivery (internal/webhook/domain/delivery.go).
use payment_gateway.Base.{
  ◌≡◌, arith, ◌∙◌, ℕ, ◌+◌, ◌≤◌, ◌<◌, Bool, true, false, List, [], ◌∷◌, All, if◌then◌else◌, length,
  ◌==◌,
}
use payment_gateway.Base.Action.{Result, ok, err}
use payment_gateway.Base.Clock.{Time}
use payment_gateway.Ids.{Uuid}
use payment_gateway.Webhook.Backoff.{Fraction, max_attempts}
use payment_gateway.Webhook.Delivery as Machine
use payment_gateway.Webhook.Delivery.{Status, Delivery, Outcome, is_success, is_waiting}
use payment_gateway.Webhook.Delivery.Life.{Call, call, run, IsValid, run-IsValid}

-- Whether a call sends a request: a claim that succeeds.
abbrev pub is_ok : Result Machine.DeliveryError (Unit {0}) → Bool
is_ok (ok _) = true
is_ok (err _) = false

abbrev pub sends : Call → Delivery → ℕ
sends (Call.claim now) d = if is_ok (Machine.claim now d).0 then 1 else 0
sends _ d = 0

-- How many of the calls send one.
unfoldable pub sent : List Call → Delivery → ℕ
sent [] d = 0
sent (c ∷ cs) d = sends c d + sent cs (call c d)

-- A call that neither gives an attempt back nor starts over.
abbrev pub is_automatic : Call → Bool
is_automatic (Call.reset_for_retry _) = false
is_automatic (Call.release _ _ _) = false
is_automatic _ = true

counts :
    (c : Call) (d : Delivery)
    → is_automatic c ≡ true
    → (call c d).attempt_no ≡ sends c d + d.attempt_no
unfolding call Machine.claim Machine.apply_outcome Machine.reap Machine.cancel
counts (Call.claim now) d h = ground arith
counts (Call.apply_outcome id now o rnd) d h = ground arith
counts (Call.reap now) d h = ground arith
counts (Call.cancel now reason) d h = ground arith
counts (Call.reset_for_retry now) d h = absurd (ground (arith, h))
counts (Call.release now retry_in reason) d h = absurd (ground (arith, h))

sent-attempt_no :
    (cs : List Call) (d : Delivery)
    → All (λ c. is_automatic c ≡ true) cs
    → (run cs d).attempt_no ≡ sent cs d + d.attempt_no
unfolding run sent
sent-attempt_no [] d a = omega arith
sent-attempt_no (c ∷ cs) d a = omega (arith, sent-attempt_no cs (call c d) a.1, counts c d a.0)

-- Without a manual retry and without a release, a valid delivery is sent at most as often as it has
-- attempts left of the 10.
pub sent-le :
    (cs : List Call) (d : Delivery)
    → IsValid d
    → All (λ c. is_automatic c ≡ true) cs
    → sent cs d + d.attempt_no ≤ max_attempts
sent-le cs d v a = omega (arith, sent-attempt_no cs d a, (run-IsValid cs d v).within)

-- One round of the dispatcher: a claim when the delivery is due, and the outcome of its request.
pub record Round : Type 0 where
  pub attempt_id : Uuid
  pub answered_at : Time
  pub outcome : Outcome
  pub rnd : Fraction

unfoldable pub round : Round → Delivery → Delivery
round r d =
    let claimed = (Machine.claim d.next_attempt_at d).1 in
    (Machine.apply_outcome r.attempt_id r.answered_at r.outcome r.rnd claimed).1

unfoldable pub rounds : List Round → Delivery → Delivery
rounds [] d = d
rounds (r ∷ rs) d = rounds rs (round r d)

-- An outcome that is neither a success nor `410 Gone`.
abbrev pub IsFailure : Round → Type 0
IsFailure r = (is_success r.outcome ≡ false) × (r.outcome.status_code == 410 ≡ false)

round_fails :
    (r : Round) (d : Delivery)
    → IsFailure r
    → is_waiting d.status ≡ true
    → ((round r d).attempt_no ≡ d.attempt_no + 1)
      × (d.attempt_no + 1 < max_attempts → is_waiting (round r d).status ≡ true)
      × (max_attempts ≤ d.attempt_no + 1 → (round r d).status ≡ Status.dead_letter)
unfolding round Machine.claim Machine.apply_outcome
round_fails r d f w = ground (arith, f, w)

-- A delivery that waits with `n` attempts left of the 10 is a dead letter after exactly `n` failed
-- rounds: each claim at the scheduled time succeeds, and the last failure ends it.
pub rounds_exhaust :
    (rs : List Round) (d : Delivery)
    → is_waiting d.status ≡ true
    → All IsFailure rs
    → d.attempt_no < max_attempts
    → length rs + d.attempt_no ≡ max_attempts
    → ((rounds rs d).status ≡ Status.dead_letter) × ((rounds rs d).attempt_no ≡ max_attempts)
unfolding rounds
rounds_exhaust [] d w f lt e = absurd (omega (arith, lt, e))
rounds_exhaust (r ∷ []) d w f lt e =
    let step = round_fails r d f.0 w in (step.2 (omega (arith, e)), step.0 ∙ omega (arith, e))
rounds_exhaust (r ∷ q ∷ rs) d w f lt e =
    let step = round_fails r d f.0 w in
    let more : d.attempt_no + 1 < max_attempts = omega (arith, e) in
    rounds_exhaust (q ∷ rs) (round r d) (step.1 more) f.1 (omega (arith, step.0, more))
      (omega (arith, step.0, e))
