-- ===== src/Reconciliation/Closing/Repeat.antt =====
-- internal/reconciliation/app/service.go: a request to close a discrepancy that is sent again.
use payment_gateway.Base.{
  ◌≡◌, refl, sym, ◌∙◌, subst, arith, ◌+◌, String, Bool, true, false, some, List, [], ◌∷◌, ◌++◌, All,
  Bool-cases, Option-cases, inl, inr, not, ltb, ◌&&◌, text_eq, text_eq_iff, text_eq_refl,
}
use payment_gateway.Base.Action.{Result-cases, ok, err}
use payment_gateway.Base.Ascii.{trim_space}
use payment_gateway.Base.Bags.{lookup-insert}
use payment_gateway.Base.Clock.{Time}
use payment_gateway.Base.Dict.{lookup, insert}
use payment_gateway.Base.Post.{
  Okay, Post, bind_post, bind_ok, pure_post, given_post, before_post, modify_post, get_post, Always,
  Always-bind, Always-raise_if, Always-modify, Always-Post,
}
use payment_gateway.Ids.{Uuid}
use payment_gateway.Reconciliation.Discrepancy.{
  Discrepancy, is_open, is_open_status, DiscrepancyStatus, resolved, ignored, invalid_transition,
  run_not_found, text, resolve, ignore, close, concurrent_modification, parse_discrepancy_id,
  resolution_note_required, resolved_by_required, public_id,
}
use payment_gateway.Reconciliation.Event.{OutboxMessage}
use payment_gateway.Reconciliation.Store.{
  Store, uuid_eq, injected, within_tx, fail_update, get_discrepancy_by_id, update_discrepancy,
  put_discrepancy, get_run_by_id, insert_outbox,
}
use payment_gateway.Reconciliation.Store.Frame.{uuid_eq_iff}
use payment_gateway.Reconciliation.Command.{Env}
use payment_gateway.Reconciliation.Reconcile.{message}
use payment_gateway.Reconciliation.Closing.{
  ResolutionAction, ResolveCommand, act, keep_key, named, run_name, resolved_event,
  close_discrepancy, is_repeat, answer, resolve_discrepancy,
}
use payment_gateway.Reconciliation.Reconcile.Stored.{on_value-Post}

abbrev pub Discrepancies : Type 0
Discrepancies = List (Uuid × Discrepancy)

-- Every discrepancy stands under its own id.
abbrev pub KeyedDiscrepancies : Discrepancies → Type 0
KeyedDiscrepancies m = All (λ e. e.0 ≡ e.1.id) m

keyed-lookup :
    (id : Uuid) (d : Discrepancy) (m : Discrepancies)
    → KeyedDiscrepancies m
    → lookup uuid_eq id m ≡ some d
    → d.id ≡ id
keyed-lookup id d [] k h = absurd (ground (arith, h))
keyed-lookup id d ((j, e) ∷ m) k h = elim (Bool-cases (uuid_eq j id)) [
  | inl q ↦ let same : some e ≡ some d = (rw q at h) in ground (arith, q, k.0, same)
  | inr q ↦ keyed-lookup id d m k.1 (rw q at h)
]

module _ (I : Discrepancies → Type 0) where
  injected-Always : (key : String) → Always (λ s. I s.discrepancies) (injected key)
  unfolding injected
  injected-Always key = record {
    keeps = λ s i. elim (Option-cases (lookup text_eq key s.errs)) [
      | inl e ↦ rw (e, injected) i
      | inr (x, e) ↦ rw (e, injected) i
    ];
  }

  insert_outbox-Always : (m : OutboxMessage) → Always (λ s. I s.discrepancies) (insert_outbox m)
  unfolding insert_outbox
  insert_outbox-Always m =
      Always-bind (injected-Always "outbox.insert")
        (λ _. Always-modify (λ s. record s { outbox = s.outbox ++ m ∷ [] }) (λ s i. i))

  run_name-Always : (id : Uuid) → Always (λ s. I s.discrepancies) (run_name id)
  unfolding get_run_by_id
  run_name-Always id = record {
    keeps = λ s i. elim (Option-cases (lookup uuid_eq id s.runs)) [
      | inl e ↦
          let unread : get_run_by_id id s ≡ (err run_not_found, s) = rw (e, get_run_by_id) refl in
          subst (λ x. I (named x).1.discrepancies) (sym unread) i
      | inr (r, e) ↦
          let read : get_run_by_id id s ≡ (ok r, s) = rw (e, get_run_by_id) refl in
          subst (λ x. I (named x).1.discrepancies) (sym read) i
    ];
  }

  fail_update-Always : Always (λ s. I s.discrepancies) fail_update
  unfolding fail_update
  fail_update-Always = record {
    keeps = λ s i. elim (Bool-cases s.fail_next_update) [ inl e ↦ rw e i | inr e ↦ rw e i ];
  }

-- A discrepancy that was read and is closed now.
abbrev Closed : Uuid → Discrepancy → Type 0
Closed id d = (d.id ≡ id) × (is_open d ≡ false)

close-Closed :
    (id : Uuid) (to : DiscrepancyStatus) (note by : String) (now : Time) (note_required : Bool)
    → is_open_status to ≡ false
    → Post (λ d. d.id ≡ id) (close to note by now note_required) (λ _ d. Closed id d)
unfolding close
close-Closed id to note by now note_required o =
    bind_post (Always-Post (Always-raise_if (text_eq (trim_space by) "") resolved_by_required))
      (λ _.
        bind_post
          (Always-Post (
            Always-raise_if (note_required && text_eq (trim_space note) "")
              resolution_note_required))
          (λ _. bind_post get_post (λ d.
            bind_post
              (Always-Post (Always-raise_if (not (is_open_status d.status)) invalid_transition))
              (λ _.
                modify_post
                  (λ d. record d {
                    status = to;
                    resolution_note = note;
                    resolved_by = by;
                    resolved_at = some now;
                    updated_at = now;
                    version = d.version + 1;
                  })
                  (λ d h. (h, o))))))

act-Closed :
    (id : Uuid) (action : ResolutionAction) (cmd : ResolveCommand) (now : Time)
    → Post (λ d. d.id ≡ id) (act action cmd now) (λ _ d. Closed id d)
unfolding resolve ignore
act-Closed id ResolutionAction.resolve_action cmd now =
    close-Closed id resolved cmd.note cmd.resolved_by now false refl
act-Closed id ResolutionAction.ignore_action cmd now =
    close-Closed id ignored cmd.note cmd.resolved_by now true refl
act-Closed id ResolutionAction.other cmd now = record { holds = λ d h. tt }

is_repeat-keep_key :
    (cmd : ResolveCommand) (d : Discrepancy)
    → text_eq cmd.idempotency_key "" ≡ false
    → is_open d ≡ false
    → is_repeat cmd (keep_key cmd.idempotency_key d) ≡ true
is_repeat-keep_key cmd d h o =
    let key : String = cmd.idempotency_key in
    let kept : lookup text_eq "idempotency_key"
          (insert text_eq "idempotency_key" (text key) d.details)
        ≡ some (text key) =
      lookup-insert text_eq text_eq_iff "idempotency_key" "idempotency_key" (text key) d.details in
    rw (h, is_repeat) (rw o (rw kept (text_eq_refl key)))

keep_key-id : (key : String) (d : Discrepancy) → (keep_key key d).id ≡ d.id
keep_key-id key d = elim (Bool-cases (text_eq key "")) [ inl e ↦ rw e refl | inr e ↦ rw e refl ]

-- A request that was answered.
abbrev Answered : ResolveCommand → Uuid → Discrepancy → Discrepancies → Type 0
Answered cmd id d m = (lookup uuid_eq id m ≡ some d) × (is_repeat cmd d ≡ true)

get_discrepancy-Post :
    (id : Uuid)
    → Post
        (λ s. KeyedDiscrepancies s.discrepancies)
        (get_discrepancy_by_id id)
        (λ d s. (lookup uuid_eq id s.discrepancies ≡ some d) × (d.id ≡ id))
unfolding get_discrepancy_by_id
get_discrepancy-Post id = record {
  holds = λ s k. elim (Option-cases (lookup uuid_eq id s.discrepancies)) [
    | inl e ↦ rw (e, Okay, get_discrepancy_by_id) tt
    | inr (d, e) ↦ rw (e, Okay, get_discrepancy_by_id) (e, keyed-lookup id d s.discrepancies k e)
  ];
}

get_discrepancy-Always :
    (I : Discrepancies → Type 0) (id : Uuid)
    → Always (λ s. I s.discrepancies) (get_discrepancy_by_id id)
unfolding get_discrepancy_by_id
get_discrepancy-Always I id = record {
  keeps = λ s i. elim (Option-cases (lookup uuid_eq id s.discrepancies)) [
    | inl e ↦ rw (e, get_discrepancy_by_id) i
    | inr (d, e) ↦ rw (e, get_discrepancy_by_id) i
  ];
}

update_discrepancy-Post :
    (id : Uuid) (d : Discrepancy)
    → d.id ≡ id
    → Post
        (λ s. Unit {0})
        (update_discrepancy d)
        (λ _ s. lookup uuid_eq id s.discrepancies ≡ some d)
unfolding update_discrepancy
update_discrepancy-Post id d e =
    let I : Discrepancies → Type 0 = λ _. Unit {0} in
    bind_post (Always-Post (fail_update-Always I)) (λ _.
      bind_post (Always-Post (get_discrepancy-Always I d.id)) (λ old.
        bind_post
          (Always-Post (Always-raise_if (ltb d.version old.version) concurrent_modification))
          (λ _. modify_post (put_discrepancy d) (λ s h.
            lookup-insert uuid_eq uuid_eq_iff id d.id d s.discrepancies
            ∙ rw (e, (uuid_eq_iff id id).1 refl) refl))))

abbrev closing : Env → Discrepancy → String → OutboxMessage
closing env d run =
    message "discrepancy" (public_id d) "reconciliation.discrepancy.resolved"
      (resolved_event d run env.now)

close_discrepancy-Post :
    (b : Bool) (env : Env) (cmd : ResolveCommand) (id : Uuid) (d : Discrepancy)
    → text_eq cmd.idempotency_key "" ≡ false
    → is_repeat cmd d ≡ b
    → Post
        (λ s. (lookup uuid_eq id s.discrepancies ≡ some d) × (d.id ≡ id))
        (close_discrepancy b env cmd d)
        (λ d' s. Answered cmd id d' s.discrepancies)
close_discrepancy-Post true env cmd id d n r = record { holds = λ s h. (h.0, r) }
close_discrepancy-Post false env cmd id d n r =
    given_post {P = λ s. lookup uuid_eq id s.discrepancies ≡ some d} (λ e.
      bind_post
        (on_value-Post _ (λ d. d.id ≡ id) (Closed id) (act cmd.action cmd env.now) d
          (act-Closed id cmd.action cmd env.now) e)
        (λ closed. given_post (λ c.
          let d' : Discrepancy = keep_key cmd.idempotency_key closed in
          let I : Discrepancies → Type 0 = λ m. lookup uuid_eq id m ≡ some d' in
          let again : is_repeat cmd d' ≡ true = is_repeat-keep_key cmd closed n c.1 in
          before_post
            (bind_post
              (update_discrepancy-Post id d' (keep_key-id cmd.idempotency_key closed ∙ c.0))
              (λ _. bind_post (Always-Post (run_name-Always I d'.run_id)) (λ run.
                bind_post (Always-Post (insert_outbox-Always I (closing env d' run))) (λ _.
                  before_post (pure_post {Q = λ x t. Answered cmd id x t.discrepancies} d')
                    (λ t i. (i, again))))))
            (λ s h. tt))))

answer-Post :
    (env : Env) (cmd : ResolveCommand) (id : Uuid)
    → text_eq cmd.idempotency_key "" ≡ false
    → Post
        (λ s. KeyedDiscrepancies s.discrepancies)
        (answer env cmd id)
        (λ d s. Answered cmd id d s.discrepancies)
unfolding answer within_tx
answer-Post env cmd id n = record {
  holds = λ s k.
      (bind_post (get_discrepancy-Post id)
          (λ d. close_discrepancy-Post (is_repeat cmd d) env cmd id d n refl)).holds
        (record s { tx_count = s.tx_count + 1 }) k;
}

answer-Answered :
    (env : Env) (cmd : ResolveCommand) (id : Uuid) (d : Discrepancy) (s : Store)
    → Answered cmd id d s.discrepancies
    → answer env cmd id s ≡ (ok d, record s { tx_count = s.tx_count + 1 })
unfolding answer within_tx get_discrepancy_by_id
answer-Answered env cmd id d s h =
    let u : Store = record s { tx_count = s.tx_count + 1 } in
    let read : get_discrepancy_by_id id u ≡ (ok d, u) = rw (h.0, get_discrepancy_by_id) refl in
    bind_ok (get_discrepancy_by_id id) (λ d. close_discrepancy (is_repeat cmd d) env cmd d) u u d
      read
    ∙ rw h.1 refl

-- Closing a discrepancy is idempotent under its key: when a request with an idempotency key returned a
-- discrepancy, of a store in which every discrepancy stands under its own id, the same request, at any
-- later time, returns the same discrepancy, and it changes nothing in the store but the count of
-- transactions: no second event is written.
pub resolve-resolve_again :
    (env : Env) (cmd : ResolveCommand) (s t : Store) (d : Discrepancy) (now : Time)
    → KeyedDiscrepancies s.discrepancies
    → text_eq cmd.idempotency_key "" ≡ false
    → resolve_discrepancy env cmd s ≡ (ok d, t)
    → resolve_discrepancy (record env { now = now }) cmd t
      ≡ (ok d, record t { tx_count = t.tx_count + 1 })
unfolding resolve_discrepancy
resolve-resolve_again env cmd s t d now k n h =
    elim (Result-cases (parse_discrepancy_id env.parse_uuid cmd.discrepancy_id)) [
      | inr (e, q) ↦
          let refused : (resolve_discrepancy env cmd s).0 ≡ err e = rw q refl in
          let returned : (resolve_discrepancy env cmd s).0 ≡ ok d = rw h refl in
          absurd (ground (arith, refused, returned))
      | inl (id, q) ↦
          let answered_now : answer env cmd id s ≡ (ok d, t) = (rw q at h) in
          let answered : Answered cmd id d t.discrepancies =
            subst (λ x. Okay (λ d u. Answered cmd id d u.discrepancies) x.0 x.1) answered_now
              ((answer-Post env cmd id n).holds s k) in
          rw q (answer-Answered (record env { now = now }) cmd id d t answered)
    ]
