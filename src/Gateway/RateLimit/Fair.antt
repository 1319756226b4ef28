-- ===== src/Gateway/RateLimit/Fair.antt =====
-- `Allow` of internal/gateway/ratelimit.go over any sequence of calls: how many get through.
use payment_gateway.Base.{
  ◌≡◌, refl, sym, ap, subst, ◌∙◌, arith, ℕ, ◌+◌, ◌≤◌, ◌<◌, ◌==◌, ==_iff, leb, min, String, Bool,
  true, false, List, [], ◌∷◌, ◌&&◌, text_eq, text_eq_iff, countp, Bool-cases, inl, inr,
  if◌then◌else◌,
}
use native.Mathlib.Decide.{dec_lt}
use payment_gateway.Base.Bags.{counter, counter-insert}
use payment_gateway.Gateway.RateLimit.{
  MemoryRateLimiter, new_memory_rate_limiter, open_window, count_one, allow,
}

-- The arithmetic of one call: counted, not counted, and of a later second.
count_up :
    (g rps c c' n : ℕ)
    → c' ≡ c + 1
    → g + min rps c' ≡ min rps (c' + n)
    → (if leb c' rps then 1 else 0) + g + min rps c ≡ min rps (c + (1 + n))
count_up g rps c c' n e h = ground arith

count_same :
    (g rps c c' n : ℕ)
    → c' ≡ c
    → g + min rps c' ≡ min rps (c' + n)
    → 0 + g + min rps c ≡ min rps (c + (0 + n))
count_same g rps c c' n e h = omega arith

count_none :
    (g rps c c' n : ℕ)
    → c' ≡ 0
    → n ≡ 0
    → g + min rps c' ≡ min rps (c' + n)
    → 0 + g + min rps c ≡ min rps (c + (0 + n))
count_none g rps c c' n e z h = omega arith

-- A call of `Allow`: the second that the clock shows, and the merchant.
pub record Call : Type 0 where
  pub sec : ℕ
  pub merchant : String

-- The clock does not go back.
abbrev pub Ascends : ℕ → List Call → Type 0
Ascends from [] = Unit
Ascends from (c ∷ cs) = (from ≤ c.sec) × Ascends c.sec cs

module _ (s : ℕ) (m : String) where
  -- A call of the merchant in the second.
  abbrev pub concerns : Call → Bool
  concerns c = (c.sec == s) && text_eq c.merchant m

  -- How many calls of the merchant in the second are let through.
  unfoldable pub granted : List Call → MemoryRateLimiter → ℕ
  granted [] l = 0
  granted (c ∷ cs) l =
      let (allowed, l') = allow c.sec c.merchant l in
      (if concerns c && allowed then 1 else 0) + granted cs l'

  -- The count that the limiter holds for the merchant in the second.
  abbrev counted : MemoryRateLimiter → ℕ
  counted l = if l.window == s then counter text_eq m l.counts else 0

  late-Ascends : (from : ℕ) (cs : List Call) → Ascends from cs → s < from → countp concerns cs ≡ 0
  late-Ascends from [] a lt = refl
  late-Ascends from (c ∷ cs) a lt =
      let rest = late-Ascends c.sec cs a.1 (omega (arith, a.0)) in
      let here : (c.sec == s) ≡ false = ground (arith, a.0) in rw here (omega (arith, rest))

  count_one-counter :
      (merchant : String) (l : MemoryRateLimiter)
      → counter text_eq m (count_one merchant l).counts
        ≡ counter text_eq m l.counts + (if text_eq merchant m then 1 else 0)
  count_one-counter merchant l =
      let put =
        counter-insert text_eq text_eq_iff m merchant (counter text_eq merchant l.counts + 1)
          l.counts in
      elim (Bool-cases (text_eq merchant m)) [
        | inl e ↦
            let same = ap (λ k. counter text_eq k l.counts) ((text_eq_iff merchant m).0 e) in
            put ∙ rw e (omega (arith, same))
        | inr e ↦ put ∙ rw e (omega arith)
      ]

  open_window-window : (sec : ℕ) (l : MemoryRateLimiter) → (open_window sec l).window ≡ sec
  open_window-window sec l = ground (arith, ==_iff sec l.window)

  -- The window of the second holds what the limiter held for it.
  open_window-counter :
      (l : MemoryRateLimiter) → counter text_eq m (open_window s l).counts ≡ counted l
  open_window-counter l = ground arith

  -- A call in the second leaves this, and with the merchant lets it through by this.
  after : ℕ → String → MemoryRateLimiter → MemoryRateLimiter
  after sec merchant l = count_one merchant (open_window sec l)

  after-counter :
      (merchant : String) (l : MemoryRateLimiter)
      → counted (after s merchant l) ≡ counter text_eq m (after s merchant l).counts
  unfolding after
  after-counter merchant l =
      let w : ((open_window s l).window == s) ≡ true = (==_iff _ s).1 (open_window-window s l) in
      rw w refl

  after-counted :
      (merchant : String) (l : MemoryRateLimiter)
      → counted (after s merchant l) ≡ counted l + (if text_eq merchant m then 1 else 0)
  unfolding after
  after-counted merchant l =
      after-counter merchant l
      ∙ count_one-counter merchant (open_window s l)
      ∙ ap (λ n. n + (if text_eq merchant m then 1 else 0)) (open_window-counter l)

  -- One call: one that is in the second is counted for its merchant, and one that concerns us is let
  -- through if the count is within the limit.
  allow_lem :
      (c : Call) (l : MemoryRateLimiter)
      → 0 < l.rps
      → let (allowed, l') = allow c.sec c.merchant l in
        (l'.window ≡ c.sec)
        × (l'.rps ≡ l.rps)
        × (c.sec ≡ s → counted l' ≡ counted l + (if text_eq c.merchant m then 1 else 0))
        × (c.sec ≡ s → c.merchant ≡ m → allowed ≡ leb (counted l') l.rps)
  unfolding allow after
  allow_lem c l pos_rps =
      let on : leb l.rps 0 ≡ false = ground arith in
      let w = open_window-window c.sec l in
      let kept : (open_window c.sec l).rps ≡ l.rps = ground arith in
      let kept_s : (open_window s l).rps ≡ l.rps = ground arith in
      let here = λ (e : c.sec ≡ s).
        subst
          (λ x.
            counted (after x c.merchant l) ≡ counted l + (if text_eq c.merchant m then 1 else 0))
          (sym e) (after-counted c.merchant l) in
      let ours : leb (counter text_eq m (after s m l).counts) (after s m l).rps
          ≡ leb (counted (after s m l)) l.rps =
        ap (λ n. leb n (after s m l).rps) (sym (after-counter m l))
        ∙ ap (λ n. leb (counted (after s m l)) n) kept_s in
      let through = λ (e : c.sec ≡ s) (f : c.merchant ≡ m).
        subst
          (λ x.
            leb (counter text_eq x (after c.sec x l).counts) (after c.sec x l).rps
            ≡ leb (counted (after c.sec x l)) l.rps)
          (sym f)
          (subst
            (λ x.
              leb (counter text_eq m (after x m l).counts) (after x m l).rps
              ≡ leb (counted (after x m l)) l.rps)
            (sym e) ours) in
      rw on (w, kept, here, through)

  granted_lem :
      (cs : List Call) (l : MemoryRateLimiter)
      → 0 < l.rps
      → Ascends l.window cs
      → granted cs l + min l.rps (counted l) ≡ min l.rps (counted l + countp concerns cs)
  unfolding granted
  granted_lem [] l pos_rps a = omega arith
  granted_lem (c ∷ cs) l pos_rps a =
      let (w, r, here, through) = allow_lem c l pos_rps in
      let l' = (allow c.sec c.merchant l).1 in
      let rest =
        subst (λ q. granted cs l' + min q (counted l') ≡ min q (counted l' + countp concerns cs)) r
          (granted_lem cs l' (omega (arith, r)) (subst (λ n. Ascends n cs) (sym w) a.1)) in
      elim (Bool-cases (c.sec == s)) [
        | inl e ↦
            let sec = (==_iff c.sec s).0 e in
            elim (Bool-cases (text_eq c.merchant m)) [
              | inl f ↦
                  let one = here sec in
                  let lets = through sec ((text_eq_iff c.merchant m).0 f) in
                  rw (e, f, lets)
                    (count_up (granted cs l') l.rps (counted l) (counted l') (countp concerns cs)
                      (one ∙ rw f refl) rest)
              | inr f ↦
                  let one = here sec in
                  rw (e, f)
                    (count_same (granted cs l') l.rps (counted l) (counted l') (countp concerns cs)
                      (one ∙ rw f (omega arith)) rest)
            ]
        | inr e ↦
            let outside : counted l' ≡ 0 = ground (arith, w, e) in
            elim (dec_lt c.sec s) [
              | yes lt ↦
                  let before : counted l ≡ 0 = ground (arith, a.0, lt) in
                  rw e (
                    count_same (granted cs l') l.rps (counted l) (counted l') (countp concerns cs)
                      (outside ∙ sym before) rest)
              | no ge ↦
                  let none_left = late-Ascends c.sec cs a.1 (ground (arith, ge, e)) in
                  rw e (
                    count_none (granted cs l') l.rps (counted l) (counted l') (countp concerns cs)
                      outside none_left rest)
            ]
      ]

-- Over any sequence of calls during which the clock does not go back, with a limit above 0: for
-- every second and merchant, as many calls are let through as there are, and the limit at most.
pub granted-min :
    (s : ℕ) (m : String) (rps : ℕ) (cs : List Call)
    → 0 < rps
    → Ascends 0 cs
    → granted s m cs (new_memory_rate_limiter rps) ≡ min rps (countp (concerns s m) cs)
granted-min s m rps cs pos_rps a =
    let l = new_memory_rate_limiter rps in
    let empty : counted s m l ≡ 0 = ground arith in
    let all = granted_lem s m cs l pos_rps a in omega (arith, empty, all)
