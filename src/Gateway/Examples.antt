-- ===== src/Gateway/Examples.antt =====
-- A POST sent twice through the middlewares of internal/gateway, and a merchant above the limit.
use payment_gateway.Base.{
  ◌≡◌, refl, arith, ℕ, ◌+◌, ◌*◌, ◌<◌, leb, min, String, Bool, true, false, none, some, List, [],
  ◌∷◌, All, countp, text_eq, if◌then◌else◌,
}
use payment_gateway.Base.Action.{ok, err}
use payment_gateway.Base.Clock.{second}
use payment_gateway.Idempotency.{
  in_progress, mismatch, BeginState, Response, new_memory_store, store_key, begin, complete,
}
use payment_gateway.Idempotency.Replay.{
  Call, begin_call, abort_call, Spares, run, after, begin-complete_replays,
}
use payment_gateway.Gateway.Request.{Request, Served, served, replayed}
use payment_gateway.Gateway.Once.{Ticket, screen, kept_response, idempotency, valid_idempotency_key}
use payment_gateway.Gateway.Once.Replay.{serve_again}
use payment_gateway.Gateway.RateLimit.{new_memory_rate_limiter, allow}
use payment_gateway.Gateway.RateLimit.Fair as Fair
use payment_gateway.Gateway.RateLimit.Fair.{granted, concerns, granted-min}

abbrev answer : Response
answer = record { status_code = 201; headers = []; body = "{}" }

abbrev meanwhile : List Call
meanwhile =
    begin_call (2 * second) "mch_1" "k1" "h1"
    ∷ begin_call (3 * second) "mch_2" "k1" "h9"
    ∷ abort_call "mch_2" "k1"
    ∷ []

-- The lock is free.
took_lock : (begin second "mch_1" "k1" "h1" new_memory_store).0 ≡ ok (BeginState.new, none)
unfolding begin store_key
took_lock = refl

meanwhile-Spares :
    All (Spares (store_key "mch_1" "k1") (second + new_memory_store.lock_ttl)) meanwhile
unfolding store_key
meanwhile-Spares = (omega arith, (omega arith, (refl, tt)))

begin-complete_replays_example :
    let busy = run meanwhile (after second "mch_1" "k1" "h1" new_memory_store) in
    let done = run [] (complete (5 * second) "mch_1" "k1" answer busy) in
    ((begin (4 * second) "mch_1" "k1" "h1" busy).0
      ≡ (if text_eq "h1" "h1" then err in_progress else err mismatch))
    × ((begin (6 * second) "mch_1" "k1" "h1" done).0
        ≡ (if text_eq "h1" "h1" then ok (BeginState.completed, some answer) else err mismatch))
begin-complete_replays_example =
    begin-complete_replays second (5 * second) (4 * second) (6 * second) "mch_1" "k1" "h1" "h1"
      answer new_memory_store meanwhile [] took_lock meanwhile-Spares tt (omega arith) (omega arith)

-- A handler that counts its calls and answers 201.
abbrev counting : Request → ℕ → Served × ℕ
counting r n = (record { status = 201; body = "{}"; request_id = "req_1" }, n + 1)

abbrev no_more : String → Bool
no_more c = false

abbrev first_of : String → String → String → String
first_of a b c = a

abbrev posted : Request
posted = record {
  method = "POST";
  path = "/v1/payments";
  idempotency_key = "k1";
  merchant = some "mch_1";
  body = some "{}";
}

abbrev ticket : Ticket
ticket = record { merchant = "mch_1"; key = "k1"; hash = "POST" }

posted-screen : screen no_more first_of posted ≡ ok ticket
unfolding screen valid_idempotency_key
posted-screen = refl

posted-new :
    (begin second ticket.merchant ticket.key ticket.hash new_memory_store).0
    ≡ ok (BeginState.new, none)
unfolding begin store_key
posted-new = refl

serve_again_example :
    let (reply, state) =
      idempotency counting no_more first_of second (2 * second) posted (new_memory_store, 0) in
    let answer = (counting posted 0).0 in
    (reply ≡ served answer)
    × (state.1 ≡ (counting posted 0).1)
    × (leb 500 answer.status ≡ false
        → All (Spares (store_key ticket.merchant ticket.key) (2 * second + new_memory_store.ttl)) []
        → 3 * second < 2 * second + new_memory_store.ttl
        → let (reply', state') =
            idempotency counting no_more first_of
              (3 * second)
              (4 * second)
              posted
              (run [] state.0, 1) in
          (reply' ≡ replayed (kept_response answer)) × (state'.1 ≡ 1))
    × (leb 500 answer.status ≡ true
        → let (reply', state') =
            idempotency counting no_more first_of (3 * second) (4 * second) posted (state.0, 1) in
          (reply' ≡ served (counting posted 1).0) × (state'.1 ≡ (counting posted 1).1))
serve_again_example =
    serve_again counting no_more first_of second (2 * second) (3 * second) (4 * second) posted
      posted ticket new_memory_store 0 1 [] refl refl posted-screen posted-screen posted-new

abbrev call : ℕ → String → Fair.Call
call sec merchant = record { sec = sec; merchant = merchant }

abbrev calls : List Fair.Call
calls = call 7 "mch_1" ∷ call 7 "mch_1" ∷ call 7 "mch_2" ∷ call 7 "mch_1" ∷ call 8 "mch_1" ∷ []

two_of_three : granted 7 "mch_1" calls (new_memory_rate_limiter 2) ≡ 2
unfolding granted allow
two_of_three = refl

granted-min_example :
    granted 7 "mch_1" calls (new_memory_rate_limiter 2) ≡ min 2 (countp (concerns 7 "mch_1") calls)
granted-min_example = granted-min 7 "mch_1" 2 calls (omega arith) (ground arith)
