-- ===== src/Reconciliation/Import/Again.antt =====
-- internal/reconciliation/app/service.go: the import of a file that was imported already.
use payment_gateway.Base.{
  ◌≡◌, refl, ◌∙◌, subst, arith, ℕ, ◌+◌, String, Bool, true, false, Option, none, some, List,
  Bool-cases, Option-cases, inl, inr, is_some, length, text_eq, text_eq_iff, any,
}
use payment_gateway.Base.Action.{Result, Result-cases, ok, err}
use payment_gateway.Base.Clock.{Time}
use payment_gateway.Base.Post.{
  Okay, Post, bind_post, bind_ok, pure_post, lift_post, given_post, weaken_post, before_post,
}
use payment_gateway.Ids.{Uuid}
use payment_gateway.Reconciliation.Discrepancy.{ReconError, duplicate_file}
use payment_gateway.Reconciliation.Run.{Run, new_run, start}
use payment_gateway.Reconciliation.Settlement.{
  SettlementFile, SettlementLine, new_settlement_file, mark_importing, mark_imported,
}
use payment_gateway.Reconciliation.Store.{
  Store, M, within_tx, file_by_hash, get_file_by_hash, create_file, find_run_by_file_id,
  run_of_file, list_lines_by_file, values,
}
use payment_gateway.Reconciliation.Store.Frame.{Files, Keeps, Keeps-Post, insert_lines-Keeps}
use payment_gateway.Reconciliation.Store.Filed.{
  Keyed, Filed, HasRun, find-hash, run_of_file-some, run_of_file-none, run_of_file-OfFile,
  create_file-Post, create_file-Keyed, update_file-Post, create_run-Post,
}
use payment_gateway.Reconciliation.Command.{Parser, Env, ImportCommand, check_import}
use payment_gateway.Reconciliation.Import.{
  ImportResult, is_imported, file_or_none, imported_run, find_imported, fresh_file, triggered,
  created, load_or_create, mark_if, load_or_create_file, own_lines, of_file, import_lines, run_file,
  fresh_result, lines_or, reimport, import_file, import_tx, parsed, unless_imported,
  import_settlement_file,
}
use payment_gateway.Reconciliation.Reconcile.Stored.{
  OfFile, on_value-Post, start-OfFile, reconcile-Post,
}

-- The content's file is imported, and it has a run.
pub record Settled (env : Env) (hash : String) (s : Store) : Type 0 where
  pub file : SettlementFile
  pub filed : Filed hash file s.files
  pub imported : is_imported file ≡ true
  pub has_run : HasRun (env.print_uuid file.id) s.runs

file_or_none-Post :
    (hash : String)
    → Post
        (λ s. Keyed s.files)
        (file_or_none hash)
        (λ o s. Keyed s.files × (file_by_hash hash s.files ≡ o))
unfolding file_or_none get_file_by_hash
file_or_none-Post hash = record {
  holds = λ s h. elim (Option-cases (file_by_hash hash s.files)) [
    | inl e ↦ rw (e, Okay, file_or_none, get_file_by_hash) (h, e)
    | inr (f, e) ↦ rw (e, Okay, file_or_none, get_file_by_hash) (h, e)
  ];
}

get_file_by_hash-Post :
    (hash : String)
    → Post (λ s. Keyed s.files) (get_file_by_hash hash) (λ f s. Filed hash f s.files)
unfolding get_file_by_hash
get_file_by_hash-Post hash = record {
  holds = λ s h. elim (Option-cases (file_by_hash hash s.files)) [
    | inl e ↦ rw (e, Okay, get_file_by_hash) tt
    | inr (f, e) ↦ rw (e, Okay, get_file_by_hash) (h, e)
  ];
}

created-Okay :
    (hash : String) (f : SettlementFile) (r : Result ReconError (Unit {0})) (s : Store)
    → Okay (λ _ t. Filed hash f t.files) r s
    → Keyed s.files
    → Okay (λ g t. Filed hash g t.files) (created hash f r s).0 (created hash f r s).1
created-Okay hash f (ok u) s h k = h
created-Okay hash f (err duplicate_file) s h k = (get_file_by_hash-Post hash).holds s k
created-Okay hash f (err e) s h k = tt

load_or_create-Post :
    (hash : String) (f : SettlementFile) (o : Option SettlementFile)
    → f.file_hash ≡ hash
    → Post
        (λ s. Keyed s.files × (file_by_hash hash s.files ≡ o))
        (load_or_create hash f o)
        (λ g s. Filed hash g s.files)
load_or_create-Post hash f (some old) e = record { holds = λ s h. h }
load_or_create-Post hash f none e = record {
  holds = λ s h.
      created-Okay hash f (create_file f s).0 (create_file f s).1
        ((create_file-Post hash f e).holds s h) ((create_file-Keyed f).keeps s h.0);
}

mark_if-Post :
    (b : Bool) (hash : String) (now : Time) (f : SettlementFile)
    → Post (λ s. Filed hash f s.files) (mark_if b now f) (λ g s. Filed hash g s.files)
unfolding mark_importing
mark_if-Post true hash now f = pure_post {Q = λ g s. Filed hash g s.files} f
mark_if-Post false hash now f =
    weaken_post (update_file-Post hash f (mark_importing now f) refl refl) (λ g s h. h.0)

triggered-hash :
    (env : Env) (cmd : ImportCommand) (hash : String) (start_ end_ : Time)
    → (triggered cmd (fresh_file env cmd hash start_ end_)).file_hash ≡ hash
unfolding new_settlement_file
triggered-hash env cmd hash start_ end_ = elim (Bool-cases (text_eq cmd.triggered_by "")) [
  | inl e ↦ rw e refl
  | inr e ↦ rw e refl
]

load_or_create_file-Post :
    (env : Env) (cmd : ImportCommand) (hash : String) (start_ end_ : Time)
    → Post
        (λ s. Keyed s.files)
        (load_or_create_file env cmd hash start_ end_)
        (λ f s. Filed hash f s.files)
unfolding load_or_create_file
load_or_create_file-Post env cmd hash start_ end_ =
    let f = triggered cmd (fresh_file env cmd hash start_ end_) in
    bind_post (file_or_none-Post hash) (λ found.
      bind_post (load_or_create-Post hash f found (triggered-hash env cmd hash start_ end_))
        (λ g. mark_if-Post (is_imported g) hash env.now g))

run_file-Post :
    (env : Env) (cmd : ImportCommand) (hash : String) (start_ end_ : Time) (file : SettlementFile)
    (lines : List SettlementLine)
    → is_imported file ≡ true
    → Post
        (λ s. Filed hash file s.files)
        (run_file env cmd start_ end_ file lines)
        (λ _ s. Settled env hash s)
unfolding run_file
run_file-Post env cmd hash start_ end_ file lines h =
    let V : Files → Type 0 = Filed hash file in
    let x : String = env.print_uuid file.id in
    weaken_post
      (bind_post
        (lift_post (λ e. e) (new_run env.run_id cmd.provider start_ end_ cmd.triggered_by env.now))
        (λ pending. bind_post (create_run-Post V (of_file env cmd file pending)) (λ _.
          bind_post
            (on_value-Post (λ s. V s.files) (OfFile x) (OfFile x) (start env.now)
              (of_file env cmd file pending) (start-OfFile x env.now) refl)
            (λ running. given_post (λ o.
              bind_post (reconcile-Post V x env running file lines o) (λ run.
                pure_post {Q = λ _ s. V s.files × HasRun x s.runs} (fresh_result run file)))))))
      (λ r s v. record { file = file; filed = v.0; imported = h; has_run = v.1 })

import_lines-Post :
    (env : Env) (cmd : ImportCommand) (hash : String) (start_ end_ : Time) (file : SettlementFile)
    (lines : List SettlementLine)
    → Post
        (λ s. Filed hash file s.files)
        (import_lines env cmd start_ end_ file lines)
        (λ _ s. Settled env hash s)
unfolding import_lines mark_imported
import_lines-Post env cmd hash start_ end_ file lines =
    let lines' = own_lines env file.id 0 lines in
    bind_post (Keeps-Post (λ fs _. Filed hash file fs) (insert_lines-Keeps lines')) (λ _.
      bind_post (update_file-Post hash file (mark_imported (length lines) env.now file) refl refl)
        (λ file'.
          given_post (λ e. run_file-Post env cmd hash start_ end_ file' lines' (rw e refl))))

-- Where a run is found, there is one.
find_run-Post :
    (V : Files → Type 0) (x : String)
    → Post
        (λ s. V s.files)
        (find_run_by_file_id x)
        (λ o s. V s.files × (is_some o ≡ true → HasRun x s.runs))
unfolding find_run_by_file_id
find_run-Post V x = record {
  holds = λ s v. (
    v,
    λ h. elim (Bool-cases (any (λ r. text_eq r.summary.file_id x) (values s.runs))) [
      | inl e ↦ e
      | inr e ↦ absurd (ground (arith, h, run_of_file-none x (values s.runs) none e))
    ],
  );
}

list_lines_by_file-Keeps : (id : Uuid) → Keeps (list_lines_by_file id)
unfolding list_lines_by_file
list_lines_by_file-Keeps id = record { files = λ s. refl; runs = λ s. refl }

reimport-Post :
    (env : Env) (cmd : ImportCommand) (hash : String) (start_ end_ : Time) (file : SettlementFile)
    (lines : List SettlementLine)
    → is_imported file ≡ true
    → (prev : Option Run)
    → Post
        (λ s.
          Filed hash file s.files × (is_some prev ≡ true → HasRun (env.print_uuid file.id) s.runs))
        (reimport env cmd start_ end_ file lines prev)
        (λ _ s. Settled env hash s)
reimport-Post env cmd hash start_ end_ file lines h (some prev) = record {
  holds = λ s v. record { file = file; filed = v.0; imported = h; has_run = v.1 refl };
}
reimport-Post env cmd hash start_ end_ file lines h none =
    before_post
      (bind_post (Keeps-Post (λ fs _. Filed hash file fs) (list_lines_by_file-Keeps file.id))
        (λ existing. import_lines-Post env cmd hash start_ end_ file (lines_or existing lines)))
      (λ s v. v.0)

import_file-Post :
    (b : Bool) (env : Env) (cmd : ImportCommand) (hash : String) (start_ end_ : Time)
    (lines : List SettlementLine) (file : SettlementFile)
    → is_imported file ≡ b
    → Post
        (λ s. Filed hash file s.files)
        (import_file b env cmd start_ end_ lines file)
        (λ _ s. Settled env hash s)
import_file-Post false env cmd hash start_ end_ lines file h =
    import_lines-Post env cmd hash start_ end_ file lines
import_file-Post true env cmd hash start_ end_ lines file h =
    bind_post (find_run-Post (Filed hash file) (env.print_uuid file.id))
      (λ prev. reimport-Post env cmd hash start_ end_ file lines h prev)

import_tx-Post :
    (env : Env) (cmd : ImportCommand) (hash : String) (start_ end_ : Time)
    (lines : List SettlementLine)
    → Post
        (λ s. Keyed s.files)
        (import_tx env cmd hash start_ end_ lines)
        (λ _ s. Settled env hash s)
unfolding import_tx
import_tx-Post env cmd hash start_ end_ lines =
    bind_post (load_or_create_file-Post env cmd hash start_ end_)
      (λ file. import_file-Post (is_imported file) env cmd hash start_ end_ lines file refl)

within_tx-Post :
    {A : Type 0} (m : M A) (Q : A → Store → Type 0)
    → Post (λ s. Keyed s.files) m Q
    → Post (λ s. Keyed s.files) (within_tx m) Q
unfolding within_tx
within_tx-Post m Q h = record { holds = λ s k. h.holds (record s { tx_count = s.tx_count + 1 }) k }

parsed-Post :
    (env : Env) (cmd : ImportCommand) (hash : String) (start_ end_ : Time)
    (r : Result ReconError (List SettlementLine))
    → Post (λ s. Keyed s.files) (parsed env cmd hash start_ end_ r) (λ _ s. Settled env hash s)
parsed-Post env cmd hash start_ end_ (err e) = record { holds = λ s k. tt }
parsed-Post env cmd hash start_ end_ (ok lines) = record {
  holds = λ s k.
      (within_tx-Post (import_tx env cmd hash start_ end_ lines) (λ _ t. Settled env hash t)
          (import_tx-Post env cmd hash start_ end_ lines)).holds
        s k;
}

imported_run-Post :
    (env : Env) (hash : String) (o : Option SettlementFile)
    → Post
        (λ s. Keyed s.files × (file_by_hash hash s.files ≡ o))
        (imported_run env o)
        (λ r s. Keyed s.files × (is_some r ≡ true → Settled env hash s))
unfolding find_run_by_file_id
imported_run-Post env hash none = record { holds = λ s h. (h.0, λ q. absurd (ground (arith, q))) }
imported_run-Post env hash (some f) = record {
  holds = λ s h. elim (Bool-cases (is_imported f)) [
    | inr e ↦ rw (e, Okay) (h.0, λ q. absurd (ground (arith, q)))
    | inl e ↦
        rw (e, Okay)
          (
            h.0,
            λ q. record {
              file = f;
              filed = h;
              imported = e;
              has_run =
                  elim (Bool-cases
                    (any (λ r. text_eq r.summary.file_id (env.print_uuid f.id)) (values s.runs))) [
                      | inl t ↦ t
                      | inr t ↦ absurd (
                          ground (
                            arith,
                            (rw (run_of_file-none (env.print_uuid f.id) (values s.runs) none t) at
                                q),
                          ))
                    ];
            },
          )
  ];
}

find_imported-Post :
    (env : Env) (hash : String)
    → Post
        (λ s. Keyed s.files)
        (find_imported env hash)
        (λ r s. Keyed s.files × (is_some r ≡ true → Settled env hash s))
unfolding find_imported
find_imported-Post env hash =
    within_tx-Post _ _ (bind_post (file_or_none-Post hash) (λ f. imported_run-Post env hash f))

unless_imported-Post :
    (env : Env) (cmd : ImportCommand) (hash : String) (start_ end_ : Time) (parser : Parser)
    (o : Option ImportResult)
    → Post
        (λ s. Keyed s.files × (is_some o ≡ true → Settled env hash s))
        (unless_imported env cmd hash start_ end_ parser o)
        (λ _ s. Settled env hash s)
unless_imported-Post env cmd hash start_ end_ parser (some r) = record { holds = λ s h. h.1 refl }
unless_imported-Post env cmd hash start_ end_ parser none = record {
  holds = λ s h. (parsed-Post env cmd hash start_ end_ (parser.parse cmd.content)).holds s h.0;
}

import-Settled :
    (env : Env) (cmd : ImportCommand)
    → Post
        (λ s. Keyed s.files)
        (import_settlement_file env cmd)
        (λ _ s. Settled env (env.file_hash cmd.content) s)
unfolding import_settlement_file
import-Settled env cmd =
    let hash = env.file_hash cmd.content in
    bind_post (lift_post (λ e. e) (check_import env cmd)) (λ (parser, start_, end_).
      bind_post (find_imported-Post env hash)
        (λ o. unless_imported-Post env cmd hash start_ end_ parser o))

-- What a settled content is answered with.
abbrev pub Answered : Env → String → ImportResult → Type 0
Answered env hash r =
    (r.already_imported ≡ true)
    × (r.file.file_hash ≡ hash)
    × (r.run.summary.file_id ≡ env.print_uuid r.file.id)

abbrev ticked : Store → Store
ticked s = record s { tx_count = s.tx_count + 1 }

file_or_none-found :
    (hash : String) (f : SettlementFile) (s : Store)
    → file_by_hash hash s.files ≡ some f
    → file_or_none hash s ≡ (ok (some f), s)
unfolding file_or_none get_file_by_hash
file_or_none-found hash f s e = rw (e, file_or_none, get_file_by_hash) refl

imported_run-found :
    (env : Env) (f : SettlementFile) (run : Run) (s : Store)
    → is_imported f ≡ true
    → run_of_file (env.print_uuid f.id) none (values s.runs) ≡ some run
    → imported_run env (some f) s
      ≡ (ok (some (record { run = run; file = f; already_imported = true })), s)
unfolding find_run_by_file_id
imported_run-found env f run s h e = rw (h, imported_run) (rw e refl)

find_imported-Settled :
    (env : Env) (hash : String) (s : Store)
    → Settled env hash s
    → (r : ImportResult) × (find_imported env hash s ≡ (ok (some r), ticked s))
      × Answered env hash r
unfolding find_imported within_tx
find_imported-Settled env hash s h =
    let f : SettlementFile = h.file in
    let x : String = env.print_uuid f.id in
    let found : is_some (run_of_file x none (values s.runs)) ≡ true =
      run_of_file-some x (values s.runs) none (inr h.has_run) in
    elim (Option-cases (run_of_file x none (values s.runs))) [
      | inl e ↦ absurd (ground (arith, (rw e at found)))
      | inr (run, e) ↦ (
        record { run = run; file = f; already_imported = true },
        bind_ok (file_or_none hash) (imported_run env) (ticked s) (ticked s) (some f)
              (file_or_none-found hash f (ticked s) h.filed.1)
            ∙ imported_run-found env f run (ticked s) h.imported e,
        (
          refl,
          (text_eq_iff f.file_hash hash).0 (find-hash hash f s.files h.filed.1),
          run_of_file-OfFile x (values s.runs) none run tt e,
        ),
      )
    ]

-- The same service later, with other fresh ids and another time.
abbrev pub later : Env → Uuid → Uuid → (ℕ → Uuid) → (ℕ → Uuid) → Time → Time → Env
later env file_id run_id line_id discrepancy_id now reconcile_now = record env {
  file_id = file_id;
  run_id = run_id;
  line_id = line_id;
  discrepancy_id = discrepancy_id;
  now = now;
  reconcile_now = reconcile_now;
}

checked :
    (env : Env) (cmd : ImportCommand) (s t : Store) (r : ImportResult)
    → import_settlement_file env cmd s ≡ (ok r, t)
    → (p : Parser × Time × Time) × (check_import env cmd ≡ ok p)
unfolding import_settlement_file
checked env cmd s t r h = elim (Result-cases (check_import env cmd)) [
  | inl p ↦ p
  | inr (e, q) ↦
      let refused : (import_settlement_file env cmd s).0 ≡ err e = rw q refl in
      let returned : (import_settlement_file env cmd s).0 ≡ ok r = rw h refl in
      absurd (ground (arith, refused, returned))
]

import-found :
    (env : Env) (cmd : ImportCommand) (p : Parser × Time × Time) (s t : Store) (r : ImportResult)
    → check_import env cmd ≡ ok p
    → find_imported env (env.file_hash cmd.content) s ≡ (ok (some r), t)
    → import_settlement_file env cmd s ≡ (ok r, t)
unfolding import_settlement_file
import-found env cmd p s t r q h =
    let hash : String = env.file_hash cmd.content in
    rw q
      (bind_ok (find_imported env hash) (unless_imported env cmd hash p.1 p.2 p.0) s t (some r) h)

-- A settlement file that was imported is not imported again: when an import returned a result, of a
-- store in which every file stands under its own id, the same request, at any later time and with any
-- other fresh ids, is answered with a run of that content's file, marked as already imported, and it
-- changes nothing in the store but the count of transactions.
pub import-import_again :
    (env : Env) (cmd : ImportCommand) (s t : Store) (r : ImportResult) (file_id run_id : Uuid)
    (line_id discrepancy_id : ℕ → Uuid) (now reconcile_now : Time)
    → Keyed s.files
    → import_settlement_file env cmd s ≡ (ok r, t)
    → (let env' : Env = later env file_id run_id line_id discrepancy_id now reconcile_now in
        (again : ImportResult) × (import_settlement_file env' cmd t
          ≡ (ok again, record t { tx_count = t.tx_count + 1 }))
        × (again.already_imported ≡ true)
        × (again.file.file_hash ≡ env.file_hash cmd.content)
        × (again.run.summary.file_id ≡ env.print_uuid again.file.id))
unfolding check_import
import-import_again env cmd s t r file_id run_id line_id discrepancy_id now reconcile_now k h =
    let env' : Env = later env file_id run_id line_id discrepancy_id now reconcile_now in
    let hash : String = env.file_hash cmd.content in
    let settled : Settled env hash t =
      subst (λ x. Okay (λ _ u. Settled env hash u) x.0 x.1) h
        ((import-Settled env cmd).holds s k) in
    let settled' : Settled env' hash t = record {
      file = settled.file;
      filed = settled.filed;
      imported = settled.imported;
      has_run = settled.has_run;
    } in
    let (p, q) = checked env cmd s t r h in
    let q' : check_import env' cmd ≡ ok p = q in
    let (again, found, answered) = find_imported-Settled env' hash t settled' in
    (again, import-found env' cmd p t (ticked t) again q' found, answered.0, answered.1, answered.2)
