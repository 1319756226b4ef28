-- ===== src/Reconciliation/Reconcile/Stored.antt =====
-- internal/reconciliation/app/service.go: what an import leaves in the store.
use payment_gateway.Base.{
  ◌≡◌, refl, ℕ, ◌-◌, String, List, [], ◌∷◌, ◌++◌, ◌&&◌, not, Bool-cases, inl, inr,
}
use payment_gateway.Base.Action.{Result, ok, err}
use payment_gateway.Base.Clock.{Time}
use payment_gateway.Base.Method.{Method}
use payment_gateway.Base.Post.{Okay, Post, bind_post, pure_post, given_post}
use payment_gateway.Reconciliation.Discrepancy.{ReconError, Discrepancy}
use payment_gateway.Reconciliation.Matcher.{MatchResult, MatchedPair}
use payment_gateway.Reconciliation.Run.{Run, is_pending, is_running, start, complete, summarize}
use payment_gateway.Reconciliation.Settlement.{SettlementFile, SettlementLine}
use payment_gateway.Reconciliation.Store.{Store, exists_open, find_by_provider_refs, list_unsettled}
use payment_gateway.Reconciliation.Store.Frame.{
  Keeps, Keeps-Post, Keeps-bind, Keeps-pure, insert_discrepancies-Keeps, insert_outbox-Keeps, Files,
  Runs,
}
use payment_gateway.Reconciliation.Store.Filed.{HasRun, update_run-Post}
use payment_gateway.Reconciliation.Command.{Env}
use payment_gateway.Reconciliation.Reconcile.{
  on_value, screen_open, post_settlements, is_payment, reconcile, references, suppress, screened,
  publish, match_records, message, completed_event,
}

-- Of a value that is not stored: what holds of it after its method.
on_value-Okay :
    {A : Type 0} (P : Store → Type 0) (Q : A → Type 0) (r : Result ReconError (Unit {0})) (a : A)
    (s : Store)
    → Okay (λ _ b. Q b) r a
    → P s
    → (let out : Result ReconError A × Store = elim r [ ok _ ↦ (ok a, s) | err e ↦ (err e, s) ] in
        Okay (λ b t. P t × Q b) out.0 out.1)
on_value-Okay P Q (ok u) a s q p = (p, q)
on_value-Okay P Q (err e) a s q p = tt

pub on_value-Post :
    {A : Type 0} (P : Store → Type 0) (Q R : A → Type 0) (m : Method A ReconError (Unit {0}))
    (a : A)
    → Post Q m (λ _ b. R b)
    → Q a
    → Post P (on_value m a) (λ b s. P s × R b)
unfolding on_value
on_value-Post P Q R m a h q = record {
  holds = λ s p. on_value-Okay P R (m a).0 (m a).1 s (h.holds a q) p;
}

-- The run says which file it is of.
abbrev pub OfFile : String → Run → Type 0
OfFile file r = r.summary.file_id ≡ file

pub start-OfFile :
    (file : String) (now : Time) → Post (OfFile file) (start now) (λ _ r. OfFile file r)
unfolding start
start-OfFile file now = record {
  holds = λ r h. elim (Bool-cases (not (is_pending r.status))) [ inl e ↦ rw e tt | inr e ↦ rw e h ];
}

complete-OfFile :
    (file : String) (res : MatchResult) (now : Time)
    → Post (OfFile file) (complete res now) (λ _ r. OfFile file r)
unfolding complete summarize
complete-OfFile file res now = record {
  holds = λ r h. elim (Bool-cases (not (is_running r.status) && not (is_pending r.status))) [
    | inl e ↦ rw e tt
    | inr e ↦ rw e h
  ];
}

exists_open-Keeps :
    (provider : String) (d : Discrepancy)
    → Keeps (exists_open provider d.kind d.provider_reference d.internal_reference)
unfolding exists_open
exists_open-Keeps provider d = record { files = λ s. refl; runs = λ s. refl }

screen_open-Keeps :
    (now : Time) (run : Run) (ds : List Discrepancy) → Keeps (screen_open now run ds)
unfolding screen_open
screen_open-Keeps now run [] = Keeps-pure ([], 0)
screen_open-Keeps now run (d ∷ ds) = Keeps-bind (exists_open-Keeps run.provider d) (λ open_already.
    Keeps-bind (screen_open-Keeps now run ds)
      (λ rest. Keeps-pure (screened now run d open_already rest)))

post_settlements-Keeps :
    (env : Env) (run : Run) (file : SettlementFile) (ps : List MatchedPair)
    → Keeps (post_settlements env run file ps)
unfolding post_settlements
post_settlements-Keeps env run file [] = Keeps-pure tt
post_settlements-Keeps env run file (p ∷ ps) = elim (Bool-cases (is_payment p.rec.kind)) [
  | inl e ↦ rw e (Keeps-bind (insert_outbox-Keeps _) (λ _. post_settlements-Keeps env run file ps))
  | inr e ↦ rw e (Keeps-bind (Keeps-pure tt) (λ _. post_settlements-Keeps env run file ps))
]

find_by_provider_refs-Keeps :
    (provider : String) (refs : List String) → Keeps (find_by_provider_refs provider refs)
unfolding find_by_provider_refs
find_by_provider_refs-Keeps provider refs = record { files = λ s. refl; runs = λ s. refl }

list_unsettled-Keeps :
    (provider : String) (before : Time) (limit : ℕ) → Keeps (list_unsettled provider before limit)
unfolding list_unsettled
list_unsettled-Keeps provider before limit = record { files = λ s. refl; runs = λ s. refl }

publish-Post :
    (V : Files → Type 0) (x : String) (env : Env) (run : Run) (file : SettlementFile)
    (matched : List MatchedPair)
    → OfFile x run
    → Post (λ s. V s.files) (publish env run file matched) (λ _ s. V s.files × HasRun x s.runs)
unfolding publish
publish-Post V x env run file matched h =
    let W : Files → Runs → Type 0 = λ fs rs. V fs × HasRun x rs in
    bind_post (update_run-Post V x run h) (λ _.
      bind_post
        (Keeps-Post W (
          insert_outbox-Keeps (
            message "reconciliation_run" run.public_id "reconciliation.run.completed"
              (completed_event env run file))))
        (λ _.
          bind_post (Keeps-Post W (post_settlements-Keeps env run file matched))
            (λ _. pure_post {Q = λ _ s. W s.files s.runs} run)))

pub reconcile-Post :
    (V : Files → Type 0) (x : String) (env : Env) (run : Run) (file : SettlementFile)
    (lines : List SettlementLine)
    → OfFile x run
    → Post (λ s. V s.files) (reconcile env run file lines) (λ _ s. V s.files × HasRun x s.runs)
unfolding reconcile
reconcile-Post V x env run file lines h =
    let V' : Files → Runs → Type 0 = λ fs _. V fs in
    let now = env.reconcile_now in
    bind_post (Keeps-Post V' (find_by_provider_refs-Keeps run.provider (references lines [])))
      (λ records.
        bind_post
          (Keeps-Post V'
            (list_unsettled-Keeps run.provider (now - env.grace_period) env.max_unsettled))
          (λ unsettled.
            let res : MatchResult = match_records env run lines (records ++ unsettled) in
            bind_post (Keeps-Post V' (screen_open-Keeps now run res.discrepancies)) (λ kept.
              bind_post (Keeps-Post V' (insert_discrepancies-Keeps kept.0)) (λ _.
                bind_post {f = λ done. publish env (suppress kept.1 done) file res.matched}
                  (on_value-Post (λ s. V s.files) (OfFile x) (OfFile x) (complete res now) run
                    (complete-OfFile x res now) h)
                  (λ done.
                    given_post (publish-Post V x env (suppress kept.1 done) file res.matched))))))
