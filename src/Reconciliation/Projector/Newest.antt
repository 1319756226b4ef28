-- ===== src/Reconciliation/Projector/Newest.antt =====
-- internal/reconciliation/app/projector.go: what the events of payments leave, in whatever order and
-- however often they are delivered.
use payment_gateway.Base.{
  ◌≡◌, ◌⊎◌, refl, sym, ap, ◌∙◌, subst, arith, ℕ, ◌+◌, ◌≤◌, ltb, String, Bool, true, false, Option,
  none, some, List, [], ◌∷◌, Bool-cases, inl, inr, any, concat, text_eq, Member, if◌then◌else◌,
}
use payment_gateway.Base.Bags.{lookup-insert}
use payment_gateway.Base.Action.{ok}
use payment_gateway.Base.Method.{get, ◌>>=◌}
use payment_gateway.Base.Post.{bind_ok}
use payment_gateway.Base.Dict.{lookup}
use payment_gateway.Ids.{Uuid}
use payment_gateway.Reconciliation.Record.{PaymentRecord}
use payment_gateway.Reconciliation.Store.{
  Store, uuid_eq, injected, is_stale, keep_record, upsert_record, mark_processed, within_tx,
}
use payment_gateway.Reconciliation.Store.Frame.{uuid_eq_iff}
use payment_gateway.Reconciliation.Projector.{
  PaymentEvent, Projector, project_payment_event, projected, consume, keep, after_inbox,
  handle_payment_event,
}

-- A message of the topic: its event's id and its payload.
abbrev pub Delivery : Type 0
Delivery = String × String

-- The messages in the order in which they are delivered; an error is not acted on.
abbrev pub deliver : Projector → List Delivery → Store → Store
deliver p [] s = s
deliver p ((event_id, payload) ∷ ds) s = deliver p ds (handle_payment_event p event_id payload s).1

abbrev pub key_of : Projector → String → String
key_of p event_id = concat event_id (concat "|" p.consumer_name)

abbrev and_record : Option PaymentRecord → List PaymentRecord → List PaymentRecord
and_record none rs = rs
and_record (some r) rs = r ∷ rs

abbrev is_known : String → List String → Bool
is_known k seen = any (λ e. text_eq e k) seen

-- The records of the messages that are not repeated.
abbrev pub first_seen : Projector → List Delivery → List String → List PaymentRecord
first_seen p [] seen = []
first_seen p ((event_id, payload) ∷ ds) seen =
    let k = key_of p event_id in
    let skipped = first_seen p ds seen in
    let rest = first_seen p ds (k ∷ seen) in
    if text_eq event_id ""
    then skipped
    else if is_known k seen
    then skipped
    else and_record (projected p (p.unmarshal payload)) rest

-- What a record leaves under an id.
abbrev newer : Uuid → PaymentRecord → Option PaymentRecord → Option PaymentRecord
newer id r old = if uuid_eq r.id id then (if is_stale old r then old else some r) else old

abbrev newest : Uuid → List PaymentRecord → Option PaymentRecord → Option PaymentRecord
newest id [] old = old
newest id (r ∷ rs) old = newest id rs (newer id r old)

abbrev kept : Uuid → Store → Option PaymentRecord
kept id s = lookup uuid_eq id s.records

-- The store after one record.
abbrev and_newer : Uuid → Option PaymentRecord → Option PaymentRecord → Option PaymentRecord
and_newer id none old = old
and_newer id (some r) old = newer id r old

upsert_lem :
    (r : PaymentRecord) (s : Store)
    → s.errs ≡ []
    → upsert_record r s ≡ keep_record (is_stale (kept r.id s) r) r s
unfolding upsert_record injected
upsert_lem r s h =
    let none_there : lookup text_eq "records.upsert" s.errs ≡ none = rw h refl in
    let nothing : injected "records.upsert" s ≡ (ok tt, s) = rw (none_there, injected) refl in
    bind_ok (injected "records.upsert")
      (λ _. get >>= λ t. keep_record (is_stale (lookup uuid_eq r.id t.records) r) r) s s tt nothing

-- What an operation leaves: a record under the id, no errors to inject, and the same inbox.
abbrev Leaves : Uuid → Option PaymentRecord → List String → Store → Type 0
Leaves id k seen t = (kept id t ≡ k) × (t.errs ≡ []) × (t.processed ≡ seen)

keep_record-Leaves :
    (id : Uuid) (b : Bool) (r : PaymentRecord) (s : Store)
    → s.errs ≡ []
    → is_stale (kept r.id s) r ≡ b
    → Leaves id (newer id r (kept id s)) s.processed (keep_record b r s).1
keep_record-Leaves id true r s h e = elim (Bool-cases (uuid_eq r.id id)) [
  | inr q ↦ (rw q refl, h, refl)
  | inl q ↦
      let same : r.id ≡ id = (uuid_eq_iff r.id id).0 q in
      let stale : is_stale (kept id s) r ≡ true =
        subst (λ i. is_stale (kept i s) r ≡ true) same e in
      (rw q (rw stale refl), h, refl)
]
keep_record-Leaves id false r s h e =
    let put = lookup-insert uuid_eq uuid_eq_iff id r.id r s.records in
    elim (Bool-cases (uuid_eq r.id id)) [
      | inr q ↦ ((rw q at put) ∙ rw q refl, h, refl)
      | inl q ↦
          let same : r.id ≡ id = (uuid_eq_iff r.id id).0 q in
          let fresh : is_stale (kept id s) r ≡ false =
            subst (λ i. is_stale (kept i s) r ≡ false) same e in
          ((rw q at put) ∙ rw q (rw fresh refl), h, refl)
    ]

keep-Leaves :
    (id : Uuid) (o : Option PaymentRecord) (s : Store)
    → s.errs ≡ []
    → Leaves id (and_newer id o (kept id s)) s.processed (keep o s).1
keep-Leaves id none s h = (refl, h, refl)
keep-Leaves id (some r) s h =
    subst (λ x. Leaves id (newer id r (kept id s)) s.processed x.1) (sym (upsert_lem r s h))
      (keep_record-Leaves id (is_stale (kept r.id s) r) r s h refl)

consume-Leaves :
    (p : Projector) (id : Uuid) (ev : Option PaymentEvent) (s : Store)
    → s.errs ≡ []
    → Leaves id (and_newer id (projected p ev) (kept id s)) s.processed (consume p ev s).1
consume-Leaves p id none s h = (refl, h, refl)
consume-Leaves p id (some ev) s h = keep-Leaves id (project_payment_event p ev) s h

abbrev ticked : Store → Store
ticked s = record s { tx_count = s.tx_count + 1 }

handle-empty :
    (p : Projector) (event_id payload : String) (s : Store)
    → text_eq event_id "" ≡ true
    → (handle_payment_event p event_id payload s).1 ≡ s
unfolding handle_payment_event
handle-empty p event_id payload s e = rw e refl

handle-known :
    (p : Projector) (event_id payload : String) (s : Store)
    → text_eq event_id "" ≡ false
    → is_known (key_of p event_id) s.processed ≡ true
    → (handle_payment_event p event_id payload s).1 ≡ ticked s
unfolding handle_payment_event mark_processed within_tx
handle-known p event_id payload s e k =
    let marked : mark_processed event_id p.consumer_name (ticked s) ≡ (ok true, ticked s) =
      rw k refl in
    rw e (ap (λ x. (after_inbox p payload x).1) marked)

handle-new :
    (p : Projector) (event_id payload : String) (s : Store)
    → text_eq event_id "" ≡ false
    → is_known (key_of p event_id) s.processed ≡ false
    → (handle_payment_event p event_id payload s).1
      ≡ (consume p
          (p.unmarshal payload)
          (record (ticked s) { processed = key_of p event_id ∷ s.processed })).1
unfolding handle_payment_event mark_processed within_tx
handle-new p event_id payload s e k =
    let t : Store = record (ticked s) { processed = key_of p event_id ∷ s.processed } in
    let marked : mark_processed event_id p.consumer_name (ticked s) ≡ (ok false, t) = rw k refl in
    rw e (ap (λ x. (after_inbox p payload x).1) marked)

newest-and_record :
    (id : Uuid) (o : Option PaymentRecord) (rs : List PaymentRecord) (old : Option PaymentRecord)
    → newest id rs (and_newer id o old) ≡ newest id (and_record o rs) old
newest-and_record id none rs old = refl
newest-and_record id (some r) rs old = refl

deliver-newest :
    (p : Projector) (id : Uuid) (ds : List Delivery) (s : Store)
    → s.errs ≡ []
    → kept id (deliver p ds s) ≡ newest id (first_seen p ds s.processed) (kept id s)
deliver-newest p id [] s h = refl
deliver-newest p id ((event_id, payload) ∷ ds) s h = elim (Bool-cases (text_eq event_id "")) [
  | inl e ↦ rw e (
      ap (λ t. kept id (deliver p ds t)) (handle-empty p event_id payload s e)
      ∙ deliver-newest p id ds s h)
  | inr e ↦ elim (Bool-cases (is_known (key_of p event_id) s.processed)) [
    | inl k ↦
        rw (e, k)
          (ap (λ t. kept id (deliver p ds t)) (handle-known p event_id payload s e k)
            ∙ deliver-newest p id ds (ticked s) h)
    | inr k ↦
        let o = projected p (p.unmarshal payload) in
        let rest = first_seen p ds (key_of p event_id ∷ s.processed) in
        let t : Store = record (ticked s) { processed = key_of p event_id ∷ s.processed } in
        let u : Store = (consume p (p.unmarshal payload) t).1 in
        let left : Leaves id (and_newer id o (kept id s)) t.processed u =
          consume-Leaves p id (p.unmarshal payload) t h in
        let after : kept id (deliver p ds u) ≡ newest id rest (and_newer id o (kept id s)) =
          deliver-newest p id ds u left.1
          ∙ (ap (λ seen. newest id (first_seen p ds seen) (kept id u)) left.2
              ∙ ap (newest id rest) left.0) in
        rw (e, k)
          (ap (λ t. kept id (deliver p ds t)) (handle-new p event_id payload s e k)
            ∙ (after ∙ newest-and_record id o rest (kept id s)))
  ]
]

-- A record that was kept, or a newer one that came in place of it.
abbrev pub Since : ℕ → Option PaymentRecord → List PaymentRecord → Option PaymentRecord → Type 0
Since seq old rs out =
    (k : PaymentRecord) × (out ≡ some k) × (seq ≤ k.source_seq) × (Member k rs ⊎ (old ≡ some k))

newest-kept :
    (id : Uuid) (rs : List PaymentRecord) (old : PaymentRecord)
    → Since old.source_seq (some old) rs (newest id rs (some old))
newest-kept id [] old = (old, refl, ground arith, inr refl)
newest-kept id (r ∷ rs) old = elim (Bool-cases (uuid_eq r.id id)) [
  | inr q ↦
      let (k, e, le, from) = newest-kept id rs old in
      (k, rw q e, le, elim from [ inl m ↦ inl (inr m) | inr o ↦ inr o ])
  | inl q ↦ elim (Bool-cases (ltb r.source_seq old.source_seq)) [
    | inl t ↦
        let (k, e, le, from) = newest-kept id rs old in
        (k, rw q (rw t e), le, elim from [ inl m ↦ inl (inr m) | inr o ↦ inr o ])
    | inr t ↦
        let (k, e, le, from) = newest-kept id rs r in
        (
          k,
          rw q (rw t e),
          ground (arith, t, le),
          elim from [ inl m ↦ inl (inr m) | inr o ↦ inl (inl (ground (arith, o))) ],
        )
  ]
]

newer-from :
    (id : Uuid) (x : PaymentRecord) (old : Option PaymentRecord) (k : PaymentRecord)
    → newer id x old ≡ some k
    → (x ≡ k) ⊎ (old ≡ some k)
newer-from id x old k h = elim (Bool-cases (uuid_eq x.id id)) [
  | inr q ↦ inr (rw q at h)
  | inl q ↦ elim (Bool-cases (is_stale old x)) [
    | inl t ↦ inr (rw t at (rw q at h))
    | inr t ↦ inl (ground (arith, (rw t at (rw q at h))))
  ]
]

newest-Member :
    (id : Uuid) (rs : List PaymentRecord) (old : Option PaymentRecord) (r : PaymentRecord)
    → Member r rs
    → r.id ≡ id
    → Since r.source_seq old rs (newest id rs old)
newest-Member id [] old r m e = absurd m
newest-Member id (x ∷ rs) old r (inr m) e =
    let (k, out, le, from) = newest-Member id rs (newer id x old) r m e in
    (
      k,
      out,
      le,
      elim from [
        | inl m ↦ inl (inr m)
        | inr o ↦ elim (newer-from id x old k o) [ inl q ↦ inl (inl q) | inr q ↦ inr q ]
      ],
    )
newest-Member id (x ∷ rs) none r (inl same) e =
    let q : uuid_eq x.id id ≡ true = (uuid_eq_iff x.id id).1 (ap (λ r. r.id) same ∙ e) in
    let (k, out, le, from) = newest-kept id rs x in
    (
      k,
      rw q out,
      subst (λ r. r.source_seq ≤ k.source_seq) same le,
      elim from [ inl m ↦ inl (inr m) | inr o ↦ inl (inl (ground (arith, o))) ],
    )
newest-Member id (x ∷ rs) (some old) r (inl same) e =
    let q : uuid_eq x.id id ≡ true = (uuid_eq_iff x.id id).1 (ap (λ r. r.id) same ∙ e) in
    elim (Bool-cases (ltb x.source_seq old.source_seq)) [
      | inl t ↦
          let (k, out, le, from) = newest-kept id rs old in
          let seq : x.source_seq ≤ k.source_seq = ground (arith, t, le) in
          (
            k,
            rw q (rw t out),
            subst (λ r. r.source_seq ≤ k.source_seq) same seq,
            elim from [ inl m ↦ inl (inr m) | inr o ↦ inr o ],
          )
      | inr t ↦
          let (k, out, le, from) = newest-kept id rs x in
          (
            k,
            rw q (rw t out),
            subst (λ r. r.source_seq ≤ k.source_seq) same le,
            elim from [ inl m ↦ inl (inr m) | inr o ↦ inl (inl (ground (arith, o))) ],
          )
    ]

-- The newest event of a payment, a refund or a dispute wins, in whatever order the events are delivered
-- and however often: when no error is injected into the store, then for every record that a message
-- projects, of a message that is not a repetition, a record stands under its id after all the messages,
-- its sequence number is not smaller, and it is one of those that the messages project or the one that
-- was there before.
pub deliver-keeps_newest :
    (p : Projector) (ds : List Delivery) (s : Store) (r : PaymentRecord)
    → s.errs ≡ []
    → Member r (first_seen p ds s.processed)
    → (k : PaymentRecord) × (lookup uuid_eq r.id (deliver p ds s).records ≡ some k)
      × (r.source_seq ≤ k.source_seq)
      × (Member k (first_seen p ds s.processed) ⊎ (lookup uuid_eq r.id s.records ≡ some k))
deliver-keeps_newest p ds s r h m =
    let (k, out, le, from) =
      newest-Member r.id (first_seen p ds s.processed) (kept r.id s) r m refl in
    (k, deliver-newest p r.id ds s h ∙ out, le, from)
