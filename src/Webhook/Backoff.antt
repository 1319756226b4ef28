-- ===== src/Webhook/Backoff.antt =====
-- internal/webhook/domain/delivery.go: the schedule of retries.
pub mod Bounds
use payment_gateway.Base.{
  ℕ, zero, suc, ◌+◌, ◌-◌, ◌*◌, ◌/◌, ltb, leb, ◌==◌, List, [], ◌∷◌, length, if◌then◌else◌,
}
use payment_gateway.Base.Clock.{Time, minute, hour}

-- `MaxAttempts`, `MaxResponseBodyBytes` and `MaxRetryAfter`
abbrev pub max_attempts : ℕ
max_attempts = 10

abbrev pub max_response_body_bytes : ℕ
max_response_body_bytes = 4096

abbrev pub max_retry_after : Time
max_retry_after = hour

-- `schedule`: the wait before each attempt, from attempt 0.
abbrev pub schedule : List Time
schedule =
    0
    ∷ 0
    ∷ minute
    ∷ 5 * minute
    ∷ 30 * minute
    ∷ 2 * hour
    ∷ 6 * hour
    ∷ 12 * hour
    ∷ 24 * hour
    ∷ 24 * hour
    ∷ 24 * hour
    ∷ []

-- `s[n]`; the code never reads past the end.
abbrev pub at : List Time → ℕ → Time
at [] n = 0
at (x ∷ xs) zero = x
at (x ∷ xs) (suc n) = at xs n

-- `Backoff`
unfoldable pub backoff : ℕ → Time
backoff attempt_no =
    if leb attempt_no 1
    then 0
    else if leb (length schedule) attempt_no
    then at schedule (length schedule - 1)
    else at schedule attempt_no

-- A random number, as the fraction `num / den`; the caller's lies in [0, 1).
pub record Fraction : Type 0 where
  pub num : ℕ
  pub den : ℕ

-- The guard of `NextAttemptAt` on a number that is not below 1; one below 0 cannot be written here.
abbrev pub below_one : Fraction → Fraction
below_one r = if leb r.den r.num then record { num = 999_999; den = 1_000_000 } else r

-- `base` times `1 - 0.2 + 0.4 · rnd`, in whole nanoseconds.
abbrev pub jittered : Time → Fraction → Time
jittered base r = base * (8 * r.den + 4 * r.num) / (10 * r.den)

-- `NextAttemptAt`
unfoldable pub next_attempt_at : Time → ℕ → Fraction → Time
unfolding backoff
next_attempt_at now failed_attempt_no rnd =
    let base = backoff (failed_attempt_no + 1) in
    if base == 0 then now else now + jittered base (below_one rnd)
