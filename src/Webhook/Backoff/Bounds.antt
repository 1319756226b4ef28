-- ===== src/Webhook/Backoff/Bounds.antt =====
-- The schedule of retries of internal/webhook/domain/delivery.go: it never shrinks, and the jitter
-- moves a wait by at most a fifth.
use payment_gateway.Base.{◌≡◌, arith, ℕ, suc, zero, ◌+◌, ◌*◌, ◌/◌, ◌≤◌, ◌<◌, ◌==◌, if◌then◌else◌}
use payment_gateway.Base.Clock.{Time}
use payment_gateway.Webhook.Backoff.{backoff, Fraction, below_one, jittered, next_attempt_at}

backoff_step : (n : ℕ) → backoff n ≤ backoff (suc n)
unfolding backoff
backoff_step n = ground arith

-- A later attempt never waits less.
backoff-le : (m k : ℕ) → backoff m ≤ backoff (m + k)
backoff-le m zero = grind arith
backoff-le m (suc k) = grind (arith, backoff-le m k, backoff_step (m + k))

le_div : (k x y : ℕ) → 0 < y → k * y ≤ x → k ≤ x / y
le_div k x y h le = grind arith

div_le : (k x y : ℕ) → 0 < y → x < (k + 1) * y → x / y ≤ k
div_le k x y h lt = grind arith

scaled_le : (a b d : ℕ) → a ≤ b → a * d ≤ b * d
scaled_le a b d h = grind arith

scaled_lt : (a b d : ℕ) → 0 < d → a < b → a * d < b * d
scaled_lt a b d p h = grind arith

jittered-bounds :
    (base : Time) (r : Fraction)
    → 0 < r.den
    → r.num < r.den
    → (base * 4 / 5 ≤ jittered base r) × (jittered base r ≤ base * 6 / 5)
jittered-bounds base r d h =
    let low = base * 4 / 5 in
    let high = base * 6 / 5 in
    let product = base * (8 * r.den + 4 * r.num) in
    let lower : low * (10 * r.den) ≤ product =
      grind (arith, scaled_le (low * 10) (base * 8) r.den (omega arith)) in
    let spread : base * r.num ≤ base * r.den = grind arith in
    let upper : product < (high + 1) * (10 * r.den) =
      grind (arith, spread, scaled_lt (base * 12) ((high + 1) * 10) r.den d (omega arith)) in
    (
      le_div low product (10 * r.den) (omega (arith, d)) lower,
      div_le high product (10 * r.den) (omega (arith, d)) upper,
    )

due-bounds :
    (now base : Time) (rnd : Fraction)
    → 0 < rnd.den
    → rnd.num < rnd.den
    → let due = if base == 0 then now else now + jittered base (below_one rnd) in
      (now + base * 4 / 5 ≤ due) × (due ≤ now + base * 6 / 5)
due-bounds now base rnd d h =
    let capped : below_one rnd ≡ rnd = ground (arith, h) in
    let bounds = jittered-bounds base rnd d h in rw capped (ground (arith, bounds))

-- With a random number in [0, 1), the attempt after failure `n` is due no earlier than four fifths
-- and no later than six fifths of the scheduled wait after now; and the scheduled wait of a later
-- attempt is never shorter.
pub next_attempt_at-bounds :
    (now : Time) (n k : ℕ) (rnd : Fraction)
    → 0 < rnd.den
    → rnd.num < rnd.den
    → (now + backoff (n + 1) * 4 / 5 ≤ next_attempt_at now n rnd)
      × (next_attempt_at now n rnd ≤ now + backoff (n + 1) * 6 / 5)
      × (backoff (n + 1) ≤ backoff (n + 1 + k))
unfolding next_attempt_at
next_attempt_at-bounds now n k rnd d h =
    let due = due-bounds now (backoff (n + 1)) rnd d h in (due.0, due.1, backoff-le (n + 1) k)
