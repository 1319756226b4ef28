-- ===== src/Reconciliation/Import.antt =====
-- internal/reconciliation/app/service.go: the import of a settlement file, over the store in memory.
pub mod Again
use payment_gateway.Base.{
  ℕ, suc, ◌+◌, ◌-◌, ◌==◌, ltb, leb, String, Bool, true, false, Option, none, some, List, [], ◌∷◌,
  ◌++◌, ◌&&◌, ◌||◌, not, any, length, codes, text_eq, if◌then◌else◌,
}
use payment_gateway.Base.Action.{Result, ok, err}
use payment_gateway.Base.Ascii.{trim_space, to_lower}
use payment_gateway.Base.Clock.{Time}
use payment_gateway.Base.Method.{Method, pure, raise, raise_if, lift, modify, ◌>>=◌, ◌>>◌}
use payment_gateway.Ids.{Uuid, nil_uuid}
use payment_gateway.Money.{Money}
use payment_gateway.Webhook.Truncate.{prefix}
use payment_gateway.Reconciliation.Settlement.{
  FileStatus, SettlementFile, SettlementLine, matchable, new_settlement_file, mark_importing,
  mark_imported, mark_failed, net,
}
use payment_gateway.Reconciliation.Record.{PaymentRecord, RecordKind, kind_text}
use payment_gateway.Reconciliation.Discrepancy.{
  ReconError, parameter_missing, parameter_invalid, unknown_format, file_not_found, duplicate_file,
  Discrepancy, DiscrepancyStatus, Detail, text, is_open, detail, set_detail, public_id, resolve,
  ignore, parse_discrepancy_id,
}
use payment_gateway.Reconciliation.Matcher.{MatchResult, MatchedPair, match_lines}
use payment_gateway.Reconciliation.Run.{Run, new_run, start, complete, period_for_date}
use payment_gateway.Reconciliation.Event.{
  OutboxMessage, Payload, run_completed, settlement_posted, discrepancy_resolved,
}
use payment_gateway.Reconciliation.Command.{Parser, Env, ImportCommand, check_import}
use payment_gateway.Reconciliation.Store.{
  Store, M, within_tx, create_file, get_file_by_hash, update_file, insert_lines, list_lines_by_file,
  find_by_provider_refs, list_unsettled, create_run, update_run, get_run_by_id, find_run_by_file_id,
  insert_discrepancies, get_discrepancy_by_id, update_discrepancy, exists_open, insert_outbox,
}
use payment_gateway.Reconciliation.Reconcile.{on_value, message, emit, reconcile}

pub record ImportResult : Type 0 where
  pub run : Run
  pub file : SettlementFile
  pub already_imported : Bool

abbrev pub is_imported : SettlementFile → Bool
is_imported f = elim f.status [ FileStatus.imported ↦ true | _ ↦ false ]

-- A read that answers `ErrFileNotFound` where there is no file.
abbrev pub or_none : Result ReconError SettlementFile → Result ReconError (Option SettlementFile)
or_none (ok f) = ok (some f)
or_none (err file_not_found) = ok none
or_none (err e) = err e

unfoldable pub file_or_none : String → M (Option SettlementFile)
unfolding get_file_by_hash
file_or_none hash s = let (r, s') = get_file_by_hash hash s in (or_none r, s')

abbrev pub already : SettlementFile → Option Run → Option ImportResult
already f none = none
already f (some r) = some (record { run = r; file = f; already_imported = true })

abbrev pub imported_run : Env → Option SettlementFile → M (Option ImportResult)
imported_run env none s = (ok none, s)
imported_run env (some f) s =
    let (r, s') = find_run_by_file_id (env.print_uuid f.id) s in
    if not (is_imported f)
    then (ok none, s)
    else elim r [ ok run ↦ (ok (already f run), s') | err e ↦ (err e, s') ]

-- `findImported`
unfoldable pub find_imported : Env → String → M (Option ImportResult)
unfolding file_or_none find_run_by_file_id within_tx
find_imported env hash = within_tx (do f ← file_or_none hash; imported_run env f)

-- The file of a command, as both the import and its failure make it.
abbrev pub fresh_file : Env → ImportCommand → String → Time → Time → SettlementFile
fresh_file env cmd hash start end_ =
    let f =
      new_settlement_file env.file_id cmd.provider cmd.file_name hash (some start) (some end_)
        env.now in
    record f { storage_uri = cmd.storage_uri; metadata = ("format", cmd.format) ∷ [] }

abbrev pub triggered : ImportCommand → SettlementFile → SettlementFile
triggered cmd f =
    if not (text_eq cmd.triggered_by "")
    then record f { metadata = f.metadata ++ ("triggered_by", cmd.triggered_by) ∷ [] }
    else f

-- After `Create`: a file that was there already is read.
abbrev pub created : String → SettlementFile → Result ReconError (Unit {0}) → M SettlementFile
created hash f (ok _) = pure f
created hash f (err duplicate_file) = get_file_by_hash hash
created hash f (err e) = raise e

abbrev pub load_or_create : String → SettlementFile → Option SettlementFile → M SettlementFile
load_or_create hash f (some old) s = (ok old, s)
load_or_create hash f none s = let (r, s') = create_file f s in created hash f r s'

abbrev pub mark_if : Bool → Time → SettlementFile → M SettlementFile
mark_if true now f = pure f
mark_if false now f = update_file (mark_importing now f)

-- `loadOrCreateFile`
unfoldable pub load_or_create_file : Env → ImportCommand → String → Time → Time → M SettlementFile
load_or_create_file env cmd hash start end_ = do
  found ← file_or_none hash
  f ← load_or_create hash (triggered cmd (fresh_file env cmd hash start end_)) found
  mark_if (is_imported f) env.now f

-- `truncate` of the message of an error.
abbrev cut_message : String → String
cut_message s = if leb (length (codes s)) 1000 then s else prefix 1000 s

abbrev ignore_duplicate : Result ReconError (Unit {0}) → Result ReconError (Unit {0})
ignore_duplicate (err duplicate_file) = ok tt
ignore_duplicate r = r

abbrev fail_file : Env → SettlementFile → String → Option SettlementFile → M (Unit {0})
fail_file env f cause none s =
    let (r, s') = create_file (mark_failed (cut_message cause) env.now f) s in
    (ignore_duplicate r, s')
fail_file env f cause (some old) s =
    let (r, s') = update_file (mark_failed (cut_message cause) env.now old) s in
    if is_imported old then (ok tt, s) else elim r [ ok _ ↦ (ok tt, s') | err e ↦ (err e, s') ]

-- `recordParseFailure`
unfoldable pub record_parse_failure :
    Env → ImportCommand → String → Time → Time → ReconError → M (Unit {0})
record_parse_failure env cmd hash start end_ cause = within_tx (do
  found ← file_or_none hash
  fail_file env (fresh_file env cmd hash start end_) (env.error_text cause) found)

-- The lines as they are inserted: a fresh id where there is none, the file's id and the time.
abbrev pub own_lines : Env → Uuid → ℕ → List SettlementLine → List SettlementLine
own_lines env file n [] = []
own_lines env file n (l ∷ ls) =
    (record l {
      id = if l.id == nil_uuid then env.line_id n else l.id;
      file_id = file;
      created_at = env.now;
    })
    ∷ own_lines env file (n + 1) ls

abbrev pub of_file : Env → ImportCommand → SettlementFile → Run → Run
of_file env cmd file run = record run {
  summary = record run.summary {
    file_id = env.print_uuid file.id;
    file_name = file.file_name;
    file_hash = file.file_hash;
    file_format = cmd.format;
    file_size_bytes = length (codes cmd.content);
  };
}

abbrev pub fresh_result : Run → SettlementFile → ImportResult
fresh_result run file = record { run = run; file = file; already_imported = false }

-- The main transaction from the run on.
unfoldable pub run_file :
    Env → ImportCommand → Time → Time → SettlementFile → List SettlementLine → M ImportResult
run_file env cmd start_ end_ file lines = do
  pending ← lift (λ e. e) (new_run env.run_id cmd.provider start_ end_ cmd.triggered_by env.now)
  create_run (of_file env cmd file pending)
  running ← on_value (start env.now) (of_file env cmd file pending)
  run ← reconcile env running file lines
  pure (fresh_result run file)

-- The main transaction from the lines on.
unfoldable pub import_lines :
    Env → ImportCommand → Time → Time → SettlementFile → List SettlementLine → M ImportResult
import_lines env cmd start_ end_ file lines = do
  insert_lines (own_lines env file.id 0 lines)
  file' ← update_file (mark_imported (length lines) env.now file)
  run_file env cmd start_ end_ file' (own_lines env file.id 0 lines)

abbrev pub lines_or : List SettlementLine → List SettlementLine → List SettlementLine
lines_or [] lines = lines
lines_or (l ∷ ls) lines = l ∷ ls

abbrev pub reimport :
    Env
    → ImportCommand
    → Time
    → Time
    → SettlementFile
    → List SettlementLine
    → Option Run
    → M ImportResult
reimport env cmd start_ end_ file lines (some prev) =
    pure (record { run = prev; file = file; already_imported = true })
reimport env cmd start_ end_ file lines none = do
  existing ← list_lines_by_file file.id
  import_lines env cmd start_ end_ file (lines_or existing lines)

abbrev pub import_file :
    Bool → Env → ImportCommand → Time → Time → List SettlementLine → SettlementFile → M ImportResult
import_file false env cmd start_ end_ lines file = import_lines env cmd start_ end_ file lines
import_file true env cmd start_ end_ lines file = do
  prev ← find_run_by_file_id (env.print_uuid file.id)
  reimport env cmd start_ end_ file lines prev

-- The main transaction.
unfoldable pub import_tx :
    Env → ImportCommand → String → Time → Time → List SettlementLine → M ImportResult
import_tx env cmd hash start_ end_ lines = do
  file ← load_or_create_file env cmd hash start_ end_
  import_file (is_imported file) env cmd start_ end_ lines file

-- A failure to record the failure is logged only.
abbrev pub parsed :
    Env
    → ImportCommand
    → String
    → Time
    → Time
    → Result ReconError (List SettlementLine)
    → M ImportResult
parsed env cmd hash start_ end_ (err e) s =
    (err e, (record_parse_failure env cmd hash start_ end_ e s).1)
parsed env cmd hash start_ end_ (ok lines) s =
    within_tx (import_tx env cmd hash start_ end_ lines) s

abbrev pub unless_imported :
    Env → ImportCommand → String → Time → Time → Parser → Option ImportResult → M ImportResult
unless_imported env cmd hash start_ end_ parser (some r) = pure r
unless_imported env cmd hash start_ end_ parser none =
    parsed env cmd hash start_ end_ (parser.parse cmd.content)

-- `ImportSettlementFile`
unfoldable pub import_settlement_file : Env → ImportCommand → M ImportResult
import_settlement_file env cmd = do
  (parser, start_, end_) ← lift (λ e. e) (check_import env cmd)
  let hash : String = env.file_hash cmd.content
  imported ← find_imported env hash
  unless_imported env cmd hash start_ end_ parser imported
