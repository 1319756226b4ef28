-- ===== src/Gateway/Once.antt =====
-- internal/gateway/idempotency.go: the middleware `Idempotency`. The handler behind it, the hash of a
-- request and the test of a key that is not all ASCII are arguments.
pub mod Replay
use Prim.Native.Char.{code}
use payment_gateway.Base.{
  ℕ, ◌+◌, ◌==◌, ltb, leb, String, Bool, true, false, Option, none, some, List, [], ◌∷◌, ◌&&◌, ◌||◌,
  not, all, length, codes, text_eq, if◌then◌else◌,
}
use payment_gateway.Base.Action.{Result, ok, err, fail_if, ◌>>=◌, ◌>>◌}
use payment_gateway.Base.Clock.{Time}
use payment_gateway.Idempotency.{
  IdemError, mismatch, in_progress, unavailable, BeginState, Response, MemoryStore, Begun, begin,
  complete, abort,
}
use payment_gateway.Gateway.Request.{
  Problem, idempotency_missing, idempotency_invalid, idempotency_mismatch, idempotency_in_use,
  invalid_api_key, parameter_invalid, service_unavailable, Request, Served, Reply, problem, served,
  replayed,
}

-- `unicode.IsPrint` without `unicode.IsSpace`, on ASCII.
abbrev is_visible : ℕ → Bool
is_visible c = leb 33 c && leb c 126

-- The loop over the runes of a key; `beyond` is its answer on a key that has a byte beyond ASCII, which
-- is no rune by itself.
abbrev all_visible : (String → Bool) → String → Bool
all_visible beyond k = if all (λ c. ltb c 128) (codes k) then all is_visible (codes k) else beyond k

-- `validIdempotencyKey`
unfoldable pub valid_idempotency_key : (String → Bool) → String → Bool
valid_idempotency_key beyond k =
    not (text_eq k "" || ltb 255 (length (codes k))) && all_visible beyond k

-- What a request that takes part is known by: the merchant, the key and the hash.
pub record Ticket : Type 0 where
  pub merchant : String
  pub key : String
  pub hash : String

abbrev or_err : {A : Type 0} → Option A → Problem → Result Problem A
or_err (some a) p = ok a
or_err none p = err p

module _ (beyond : String → Bool) (request_hash : String → String → String → String) where
  -- The checks before the store is asked.
  unfoldable pub screen : Request → Result Problem Ticket
  unfolding valid_idempotency_key
  screen r = do
    fail_if (text_eq r.idempotency_key "") idempotency_missing
    fail_if (not (valid_idempotency_key beyond r.idempotency_key)) idempotency_invalid
    merchant ← or_err r.merchant invalid_api_key
    body ← or_err r.body parameter_invalid
    ok (record {
      merchant = merchant;
      key = r.idempotency_key;
      hash = request_hash r.method r.path body;
    })

-- The response that is kept, with the id of the request that made it.
abbrev pub kept_headers : Served → List (String × String)
kept_headers s =
    if not (text_eq s.request_id "") then ("X-Original-Request-Id", s.request_id) ∷ [] else []

abbrev pub kept_response : Served → Response
kept_response s = record { status_code = s.status; headers = kept_headers s; body = s.body }

-- The error that a failed `Begin` is answered with.
abbrev pub begin_problem : IdemError → Problem
begin_problem mismatch = idempotency_mismatch
begin_problem in_progress = idempotency_in_use
begin_problem unavailable = service_unavailable

-- After the handler: an answer of the 500s is not kept.
unfoldable pub settle : Time → Ticket → Served → MemoryStore → MemoryStore
settle now t s m =
    if leb 500 s.status
    then abort t.merchant t.key m
    else complete now t.merchant t.key (kept_response s) m

module _ {W : Type 0} (next : Request → W → Served × W) where
  -- The handler is called at one time and its answer is kept at a later one.
  unfoldable pub handle : Time → Ticket → Request → MemoryStore × W → Reply × (MemoryStore × W)
  unfolding settle
  handle now t r (m, w) = let (s, w') = next r w in (served s, (settle now t s m, w'))

  -- What follows from the answer of the store.
  unfoldable pub proceed :
      Time → Ticket → Request → Result IdemError Begun → MemoryStore × W → Reply × (MemoryStore × W)
  unfolding handle
  proceed now t r (err e) state = (problem (begin_problem e), state)
  proceed now t r (ok (BeginState.completed, some resp)) state = (replayed resp, state)
  proceed now t r (ok (BeginState.completed, none)) state = handle now t r state
  proceed now t r (ok (BeginState.new, _)) state = handle now t r state

  abbrev enter : Time → Time → Ticket → Request → MemoryStore × W → Reply × (MemoryStore × W)
  enter begun now t r (m, w) =
      let (answer, m') = begin begun t.merchant t.key t.hash m in proceed now t r answer (m', w)

  abbrev screened :
      Result Problem Ticket → Time → Time → Request → MemoryStore × W → Reply × (MemoryStore × W)
  screened (err p) begun now r state = (problem p, state)
  screened (ok t) begun now r state = enter begun now t r state

  abbrev pass : Request → MemoryStore × W → Reply × (MemoryStore × W)
  pass r (m, w) = let (s, w') = next r w in (served s, (m, w'))

  -- `Idempotency`
  unfoldable pub idempotency :
      (String → Bool)
      → (String → String → String → String)
      → Time
      → Time
      → Request
      → MemoryStore × W
      → Reply × (MemoryStore × W)
  unfolding screen proceed
  idempotency beyond request_hash begun now r state =
      if not (text_eq r.method "POST")
      then pass r state
      else screened (screen beyond request_hash r) begun now r state
