-- ===== src/Idempotency/Replay.antt =====
-- pkg/idempotency/memory.go: one holder at a time, and the first response replayed.
use payment_gateway.Base.{
  ◌≡◌, refl, sym, ap, subst, ◌∙◌, arith, ◌+◌, ◌<◌, lt→ltb, String, false, Option, none, some, List,
  [], ◌∷◌, All, Option-cases, text_eq_refl, text_eq, text_eq_iff, Bool-cases, inl, inr,
  if◌then◌else◌,
}
use payment_gateway.Base.Action.{ok, err}
use payment_gateway.Base.Bags.{lookup-insert}
use payment_gateway.Base.Clock.{Time}
use payment_gateway.Base.Dict.{lookup}
use payment_gateway.Idempotency.{
  mismatch, in_progress, BeginState, Response, Item, MemoryStore, store_key, answer, locked, live,
  begin, item_or_zero, finished, complete, delete, abort,
}

-- The calls that requests make of the store, in the order in which they take the mutex.
pub data Call : Type 0 where
  begin_call : Time → String → String → String → Call
  complete_call : Time → String → String → Response → Call
  abort_call : String → String → Call

abbrev pub perform : Call → MemoryStore → MemoryStore
perform (begin_call now merchant key hash) m = (begin now merchant key hash m).1
perform (complete_call now merchant key resp) m = complete now merchant key resp m
perform (abort_call merchant key) m = abort merchant key m

unfoldable pub run : List Call → MemoryStore → MemoryStore
run [] m = m
run (c ∷ cs) m = run cs (perform c m)

-- A call that another request may make while a key is held or its response is kept: any `Begin`
-- before the item expires, and a `Complete` or an `Abort` of another key.
abbrev pub Spares : String → Time → Call → Type 0
Spares k deadline (begin_call now _ _ _) = now < deadline
Spares k deadline (complete_call _ merchant key _) = text_eq (store_key merchant key) k ≡ false
Spares k deadline (abort_call merchant key) = text_eq (store_key merchant key) k ≡ false

abbrev pub held : String → MemoryStore → Option Item
held k m = lookup text_eq k m.items

lookup-delete :
    (j k : String) (m : List (String × Item))
    → text_eq k j ≡ false
    → lookup text_eq j (delete k m) ≡ lookup text_eq j m
lookup-delete j k [] h = refl
lookup-delete j k ((i, it) ∷ m) h =
    ground (arith, h, text_eq_iff i k, text_eq_iff i j, text_eq_iff k j, lookup-delete j k m h)

-- What a `Begin` leaves under a key.
held-begin :
    (k : String) (now : Time) (merchant key hash : String) (m : MemoryStore) (it : Item)
    → now < it.expires_at
    → held k m ≡ some it
    → (held k (begin now merchant key hash m).1 ≡ some it)
      × ((begin now merchant key hash m).1.ttl ≡ m.ttl)
unfolding begin
held-begin k now merchant key hash m it h e =
    let sk = store_key merchant key in
    elim (Option-cases (live now (lookup text_eq sk m.items))) [
      | inr (old, f) ↦ rw (f, begin) (e, refl)
      | inl f ↦
          let apart : text_eq sk k ≡ false = elim (Bool-cases (text_eq sk k)) [
            | inr q ↦ q
            | inl q ↦
                let there : lookup text_eq sk m.items ≡ some it =
                  ap (λ x. lookup text_eq x m.items) ((text_eq_iff sk k).0 q) ∙ e in
                absurd (ground (arith, (rw there at f), h))
          ] in
          let put = lookup-insert text_eq text_eq_iff k sk (locked m now hash) m.items in
          rw (f, begin) (put ∙ rw apart e, refl)
    ]

perform-Spares :
    (k : String) (c : Call) (m : MemoryStore) (it : Item)
    → Spares k it.expires_at c
    → held k m ≡ some it
    → (held k (perform c m) ≡ some it) × ((perform c m).ttl ≡ m.ttl)
unfolding complete abort
perform-Spares k (begin_call now merchant key hash) m it h e =
    held-begin k now merchant key hash m it h e
perform-Spares k (complete_call now merchant key resp) m it h e =
    let sk = store_key merchant key in
    let put =
      lookup-insert text_eq text_eq_iff k sk
        (finished m now resp (item_or_zero (lookup text_eq sk m.items))) m.items in
    (put ∙ rw h e, refl)
perform-Spares k (abort_call merchant key) m it h e =
    (lookup-delete k (store_key merchant key) m.items h ∙ e, refl)

run-Spares :
    (k : String) (cs : List Call) (m : MemoryStore) (it : Item)
    → All (Spares k it.expires_at) cs
    → held k m ≡ some it
    → (held k (run cs m) ≡ some it) × ((run cs m).ttl ≡ m.ttl)
unfolding run
run-Spares k [] m it h e = (e, refl)
run-Spares k (c ∷ cs) m it h e =
    let (e', t) = perform-Spares k c m it h.0 e in
    let (e'', t') = run-Spares k cs (perform c m) it h.1 e' in (e'', t' ∙ t)

-- What `Begin` answers while an item has not expired.
answer-begin :
    (now : Time) (merchant key hash : String) (m : MemoryStore) (it : Item)
    → held (store_key merchant key) m ≡ some it
    → now < it.expires_at
    → (begin now merchant key hash m).0 ≡ answer it hash
unfolding begin
answer-begin now merchant key hash m it e h =
    let alive : live now (some it) ≡ some it = rw (lt→ltb now it.expires_at h) refl in
    rw (e, begin) (rw (alive, begin) refl)

-- A `Begin` that answers `StateNew` took the lock.
pub begin-locked :
    (now : Time) (merchant key hash : String) (m : MemoryStore)
    → (begin now merchant key hash m).0 ≡ ok (BeginState.new, none)
    → (held (store_key merchant key) (begin now merchant key hash m).1 ≡ some (locked m now hash))
      × ((begin now merchant key hash m).1.ttl ≡ m.ttl)
unfolding begin
begin-locked now merchant key hash m h =
    let sk = store_key merchant key in
    elim (Option-cases (live now (lookup text_eq sk m.items))) [
      | inl f ↦
          let put = lookup-insert text_eq text_eq_iff sk sk (locked m now hash) m.items in
          rw (f, begin) (put ∙ rw (text_eq_refl sk) refl, refl)
      | inr (old, f) ↦ absurd (ground (arith, (rw (f, begin) at h)))
    ]

complete-held :
    (now : Time) (merchant key : String) (resp : Response) (m : MemoryStore) (it : Item)
    → held (store_key merchant key) m ≡ some it
    → held (store_key merchant key) (complete now merchant key resp m)
      ≡ some (finished m now resp it)
unfolding complete
complete-held now merchant key resp m it e =
    let sk = store_key merchant key in
    let old = item_or_zero (lookup text_eq sk m.items) in
    lookup-insert text_eq text_eq_iff sk sk (finished m now resp old) m.items
    ∙ rw (text_eq_refl sk) (ap (λ o. some (finished m now resp (item_or_zero o))) e)

answer-locked :
    (m : MemoryStore) (now : Time) (hash other : String)
    → answer (locked m now hash) other
      ≡ (if text_eq hash other then err in_progress else err mismatch)
answer-locked m now hash other = ground arith

answer-finished :
    (m : MemoryStore) (now : Time) (resp : Response) (it : Item) (other : String)
    → answer (finished m now resp it) other ≡ (
        if text_eq it.request_hash other
        then ok (BeginState.completed, some resp)
        else err mismatch)
answer-finished m now resp it other = ground arith

-- What `Begin` answers once the response of a held key is there.
pub complete-answers :
    (t1 t3 : Time) (merchant key other : String) (resp : Response) (m : MemoryStore) (it : Item)
    (later : List Call)
    → held (store_key merchant key) m ≡ some it
    → All (Spares (store_key merchant key) (t1 + m.ttl)) later
    → t3 < t1 + m.ttl
    → (begin t3 merchant key other (run later (complete t1 merchant key resp m))).0 ≡ (
        if text_eq it.request_hash other
        then ok (BeginState.completed, some resp)
        else err mismatch)
complete-answers t1 t3 merchant key other resp m it later e l lt =
    let k = store_key merchant key in
    let done = finished m t1 resp it in
    let kept = complete-held t1 merchant key resp m it e in
    let (last, _) = run-Spares k later (complete t1 merchant key resp m) done l kept in
    answer-begin t3 merchant key other _ done last lt ∙ answer-finished m t1 resp it other

abbrev pub after : Time → String → String → String → MemoryStore → MemoryStore
after now merchant key hash m = (begin now merchant key hash m).1

-- One request takes a key by `Begin` and later calls `Complete` with its response. Other requests
-- may call the store in between and afterwards, in any order, as long as they begin before the lock
-- and then the response expire, and complete or abort other keys only.
--
-- Until the lock expires nobody else is let through under the key: the same request is told
-- that the first is in progress, another that the key was used with other parameters. Once the
-- response is there and until it expires, the same request gets exactly that response, and another
-- is refused.
pub begin-complete_replays :
    (t0 t1 t2 t3 : Time) (merchant key hash other : String) (resp : Response) (m : MemoryStore)
    (during later : List Call)
    → (begin t0 merchant key hash m).0 ≡ ok (BeginState.new, none)
    → All (Spares (store_key merchant key) (t0 + m.lock_ttl)) during
    → All (Spares (store_key merchant key) (t1 + m.ttl)) later
    → t2 < t0 + m.lock_ttl
    → t3 < t1 + m.ttl
    → let busy = run during (after t0 merchant key hash m) in
      let done = run later (complete t1 merchant key resp busy) in
      ((begin t2 merchant key other busy).0
        ≡ (if text_eq hash other then err in_progress else err mismatch))
      × ((begin t3 merchant key other done).0
          ≡ (if text_eq hash other then ok (BeginState.completed, some resp) else err mismatch))
begin-complete_replays t0 t1 t2 t3 merchant key hash other resp m during later h d l lt2 lt3 =
    let k = store_key merchant key in
    let (lock, ttl) = begin-locked t0 merchant key hash m h in
    let busy = run during (after t0 merchant key hash m) in
    let (still, ttl') =
      run-Spares k during (after t0 merchant key hash m) (locked m t0 hash) d lock in
    let same : m.ttl ≡ busy.ttl = sym (ttl' ∙ ttl) in
    let spared = subst (λ n. All (Spares k (t1 + n)) later) same l in
    (
      answer-begin t2 merchant key other busy (locked m t0 hash) still lt2
          ∙ answer-locked m t0 hash other,
      complete-answers t1 t3 merchant key other resp busy (locked m t0 hash) later still spared
          (subst (λ n. t3 < t1 + n) same lt3),
    )
