-- ===== src/Gateway/RateLimit.antt =====
-- internal/gateway/ratelimit.go: the limit on a merchant's requests per second, in memory.
pub mod Fair
use payment_gateway.Base.{
  ◌≡◌, refl, ◌↔◌, arith, ℕ, zero, suc, ◌+◌, ◌≤◌, ◌<◌, ◌==◌, ==_iff, leb, min, String, Bool, true,
  false, Option, none, some, List, [], ◌∷◌, ◌&&◌, not, All, text_eq, text_eq_iff, Bool-cases, inl,
  inr, if◌then◌else◌,
}
use payment_gateway.Base.Bags.{counter, counter-insert}
use payment_gateway.Base.Dict.{insert}
use payment_gateway.Gateway.Request.{Problem, rate_limited, Request, Reply, problem}

-- The window is the second that the counts are of.
pub record MemoryRateLimiter : Type 0 where
  pub rps : ℕ
  pub counts : List (String × ℕ)
  pub window : ℕ

-- `NewMemoryRateLimiter`
abbrev pub new_memory_rate_limiter : ℕ → MemoryRateLimiter
new_memory_rate_limiter rps = record { rps = rps; counts = []; window = 0 }

-- The window is opened anew when the second has changed.
abbrev pub open_window : ℕ → MemoryRateLimiter → MemoryRateLimiter
open_window sec l = if sec == l.window then l else record l { window = sec; counts = [] }

abbrev pub count_one : String → MemoryRateLimiter → MemoryRateLimiter
count_one merchant l = record l {
  counts = insert text_eq merchant (counter text_eq merchant l.counts + 1) l.counts;
}

-- `Allow`, in the second that the clock shows.
unfoldable pub allow : ℕ → String → MemoryRateLimiter → Bool × MemoryRateLimiter
allow sec merchant l =
    if leb l.rps 0
    then (true, l)
    else let l' = count_one merchant (open_window sec l) in
      (leb (counter text_eq merchant l'.counts) l'.rps, l')

-- The middleware `RateLimit` before the handler `next`; the limiter in memory has no errors.
unfoldable pub rate_limit :
    {W : Type 0}
    → (Request → W → Reply × W)
    → ℕ
    → Request
    → MemoryRateLimiter × W
    → Reply × (MemoryRateLimiter × W)
rate_limit next sec r (l, w) = elim r.merchant [
  | none ↦ let (reply, w') = next r w in (reply, (l, w'))
  | some m ↦
      let (allowed, l') = allow sec m l in
      let (reply, w') = next r w in
      if not allowed then (problem rate_limited, (l', w)) else (reply, (l', w'))
]
