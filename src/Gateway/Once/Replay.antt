-- ===== src/Gateway/Once/Replay.antt =====
-- The middleware of internal/gateway/idempotency.go over the store of pkg/idempotency/memory.go: a
-- request that is sent again.
use payment_gateway.Base.{
  ◌≡◌, refl, sym, ap, subst, ◌∙◌, ◌+◌, ◌<◌, leb, String, Bool, true, false, none, some, List, [],
  ◌∷◌, All, Bool-cases, inl, inr, text_eq, text_eq_refl,
}
use payment_gateway.Base.Action.{ok}
use payment_gateway.Base.Clock.{Time}
use payment_gateway.Base.Dict.{lookup}
use payment_gateway.Idempotency.{
  BeginState, Response, Item, MemoryStore, delete, store_key, begin, complete, abort,
}
use payment_gateway.Idempotency.Replay.{Call, Spares, run, begin-locked, complete-answers}
use payment_gateway.Gateway.Request.{Request, Served, served, replayed}
use payment_gateway.Gateway.Once.{Ticket, screen, kept_response, settle, handle, idempotency}

delete-lookup : (k : String) (m : List (String × Item)) → lookup text_eq k (delete k m) ≡ none
delete-lookup k [] = refl
delete-lookup k ((j, it) ∷ m) = elim (Bool-cases (text_eq j k)) [
  | inl e ↦ rw e (delete-lookup k m)
  | inr e ↦ rw (e, e) (delete-lookup k m)
]

-- After an `Abort` the key is free.
begin-abort :
    (now : Time) (merchant key hash : String) (m : MemoryStore)
    → (begin now merchant key hash (abort merchant key m)).0 ≡ ok (BeginState.new, none)
unfolding begin abort
begin-abort now merchant key hash m =
    rw (delete-lookup (store_key merchant key) m.items, begin) refl

module _ {W : Type 0} (next : Request → W → Served × W) where
  -- A request that takes the lock is handed to the handler, and its answer settled.
  idempotency-new :
      (beyond : String → Bool) (request_hash : String → String → String → String) (t0 t1 : Time)
      (r : Request) (t : Ticket) (m : MemoryStore) (w : W)
      → text_eq r.method "POST" ≡ true
      → screen beyond request_hash r ≡ ok t
      → (begin t0 t.merchant t.key t.hash m).0 ≡ ok (BeginState.new, none)
      → idempotency next beyond request_hash t0 t1 r (m, w) ≡ (
        served (next r w).0,
        (settle t1 t (next r w).0 (begin t0 t.merchant t.key t.hash m).1, (next r w).1),
      )
  unfolding idempotency handle
  idempotency-new beyond request_hash t0 t1 r t m w post good new = rw (post, good, new) refl

  idempotency-completed :
      (beyond : String → Bool) (request_hash : String → String → String → String) (t0 t1 : Time)
      (r : Request) (t : Ticket) (m : MemoryStore) (w : W) (resp : Response)
      → text_eq r.method "POST" ≡ true
      → screen beyond request_hash r ≡ ok t
      → (begin t0 t.merchant t.key t.hash m).0 ≡ ok (BeginState.completed, some resp)
      → idempotency next beyond request_hash t0 t1 r (m, w)
        ≡ (replayed resp, ((begin t0 t.merchant t.key t.hash m).1, w))
  unfolding idempotency
  idempotency-completed beyond request_hash t0 t1 r t m w resp post good old =
      rw (post, good, old) refl

-- A POST that passes the checks and finds its key free is handed to the handler once, which answers.
-- The same POST again (same merchant, key and hash) gets that answer with its status and body from
-- the store, and the handler is not called, if the answer was not of the 500s and the response
-- has not expired, whatever other calls of the store came in between that complete and abort other
-- keys only. After an answer of the 500s it is handed to the handler again.
pub serve_again :
    {W : Type 0} (next : Request → W → Served × W) (beyond : String → Bool)
    (request_hash : String → String → String → String) (t0 t1 t2 t3 : Time) (r r' : Request)
    (t : Ticket) (m : MemoryStore) (w w' : W) (later : List Call)
    → text_eq r.method "POST" ≡ true
    → text_eq r'.method "POST" ≡ true
    → screen beyond request_hash r ≡ ok t
    → screen beyond request_hash r' ≡ ok t
    → (begin t0 t.merchant t.key t.hash m).0 ≡ ok (BeginState.new, none)
    → let (reply, state) = idempotency next beyond request_hash t0 t1 r (m, w) in
      let answer = (next r w).0 in
      (reply ≡ served answer)
      × (state.1 ≡ (next r w).1)
      × (leb 500 answer.status ≡ false
          → All (Spares (store_key t.merchant t.key) (t1 + m.ttl)) later
          → t2 < t1 + m.ttl
          → let (reply', state') =
              idempotency next beyond request_hash t2 t3 r' (run later state.0, w') in
            (reply' ≡ replayed (kept_response answer)) × (state'.1 ≡ w'))
      × (leb 500 answer.status ≡ true
          → let (reply', state') = idempotency next beyond request_hash t2 t3 r' (state.0, w') in
            (reply' ≡ served (next r' w').0) × (state'.1 ≡ (next r' w').1))
unfolding settle
serve_again next beyond request_hash t0 t1 t2 t3 r r' t m w w' later post post' good good' new =
    let answer = (next r w).0 in
    let m' = (begin t0 t.merchant t.key t.hash m).1 in
    let first = idempotency-new next beyond request_hash t0 t1 r t m w post good new in
    let (lock, ttl) = begin-locked t0 t.merchant t.key t.hash m new in
    (
      ap (λ x. x.0) first,
      ap (λ x. x.1.1) first,
      λ below spared early.
          let kept : (idempotency next beyond request_hash t0 t1 r (m, w)).1.0
              ≡ complete t1 t.merchant t.key (kept_response answer) m' =
            ap (λ x. x.1.0) first ∙ rw (below, settle) refl in
          let replay =
            complete-answers t1 t2 t.merchant t.key t.hash (kept_response answer) m' _ later lock
              (subst (λ n. All (Spares (store_key t.merchant t.key) (t1 + n)) later) (sym ttl)
                spared)
              (subst (λ n. t2 < t1 + n) (sym ttl) early) in
          let second =
            idempotency-completed next beyond request_hash t2 t3 r' t (run later _) w'
              (kept_response answer) post' good'
              (subst
                (λ x.
                  (begin t2 t.merchant t.key t.hash (run later x)).0
                  ≡ ok (BeginState.completed, some (kept_response answer)))
                (sym kept) (replay ∙ rw (text_eq_refl t.hash) refl)) in
          (ap (λ x. x.0) second, ap (λ x. x.1.1) second),
      λ above.
          let freed : (idempotency next beyond request_hash t0 t1 r (m, w)).1.0
              ≡ abort t.merchant t.key m' =
            ap (λ x. x.1.0) first ∙ rw (above, settle) refl in
          let second = idempotency-new next beyond request_hash t2 t3 r' t _ w' post' good' (
            subst (λ x. (begin t2 t.merchant t.key t.hash x).0 ≡ ok (BeginState.new, none))
              (sym freed) (begin-abort t2 t.merchant t.key t.hash m')) in
          (ap (λ x. x.0) second, ap (λ x. x.1.1) second),
    )
