-- ===== src/Reconciliation/Store.antt =====
-- internal/reconciliation/app/ports.go and porttest/fakes.go: what the service keeps, behind the
-- repositories, as the store in memory keeps it. A Go map is a list in order of insertion.
-- Records are values: the store in memory shares the map of details with the copies that it returns.
-- A transaction that fails is not rolled back, as there.
pub mod Frame
pub mod Filed
use payment_gateway.Base.{
  ℕ, suc, ◌+◌, ◌-◌, ◌==◌, ltb, leb, String, Bool, true, false, Option, none, some, List, [], ◌∷◌,
  ◌++◌, ◌&&◌, ◌||◌, not, any, find, length, text_eq, concat, is_some, if◌then◌else◌,
}
use payment_gateway.Base.Action.{Result, ok, err}
use payment_gateway.Base.Clock.{Time}
use payment_gateway.Base.Dict.{lookup, insert}
use payment_gateway.Base.Method.{Method, pure, raise, raise_if, get, modify, ◌>>=◌, ◌>>◌}
use payment_gateway.Ids.{Uuid}
use payment_gateway.Reconciliation.Settlement.{
  SettlementFile, SettlementLine, MatchKey, key_eq, line_key,
}
use payment_gateway.Reconciliation.Record.{PaymentRecord, is_settleable, record_key}
use payment_gateway.Reconciliation.Discrepancy.{
  ReconError, duplicate_file, file_not_found, run_not_found, discrepancy_not_found,
  concurrent_modification, Discrepancy, DiscrepancyKind, kind_eq, is_open,
}
use payment_gateway.Reconciliation.Run.{Run}
use payment_gateway.Reconciliation.Event.{OutboxMessage}

pub record Store : Type 0 where
  pub files : List (Uuid × SettlementFile)
  pub lines : List (Uuid × List SettlementLine)
  pub records : List (Uuid × PaymentRecord)
  pub runs : List (Uuid × Run)
  pub discrepancies : List (Uuid × Discrepancy)
  pub processed : List String
  pub outbox : List OutboxMessage
  pub tx_count : ℕ
  pub fail_next_update : Bool
  pub errs : List (String × ReconError)

-- `NewStore`
abbrev pub new_store : Store
new_store = record {
  files = [];
  lines = [];
  records = [];
  runs = [];
  discrepancies = [];
  processed = [];
  outbox = [];
  tx_count = 0;
  fail_next_update = false;
  errs = [];
}

abbrev pub M : Type 0 → Type 0
M A = Method Store ReconError A

abbrev pub uuid_eq : Uuid → Uuid → Bool
uuid_eq a b = a == b

-- The values of a map.
abbrev pub values {ℓ κ} : {K : Type ℓ} {V : Type κ} → List (K × V) → List V
values [] = []
values ((k, v) ∷ m) = v ∷ values m

abbrev pub filter : {A : Type 0} → (A → Bool) → List A → List A
filter p [] = []
filter p (x ∷ xs) = let rest = filter p xs in if p x then x ∷ rest else rest

abbrev without : String → List (String × ReconError) → List (String × ReconError)
without k m = filter (λ e. not (text_eq e.0 k)) m

-- `err`: an injected error is raised once.
unfoldable pub injected : String → M (Unit {0})
injected key s = elim (lookup text_eq key s.errs) [
  | some e ↦ (err e, record s { errs = without key s.errs })
  | none ↦ (ok tt, s)
]

-- `failUpdate`
unfoldable pub fail_update : M (Unit {0})
fail_update s =
    if s.fail_next_update
    then (err concurrent_modification, record s { fail_next_update = false })
    else (ok tt, s)

-- `WithinTx`: there is no rollback in memory.
unfoldable pub within_tx : {A : Type 0} → M A → M A
within_tx fn s = fn (record s { tx_count = s.tx_count + 1 })

-- The file of a content.
abbrev pub file_by_hash : String → List (Uuid × SettlementFile) → Option SettlementFile
file_by_hash hash files = find (λ f. text_eq f.file_hash hash) (values files)

abbrev pub put_file : SettlementFile → Store → Store
put_file f s = record s { files = insert uuid_eq f.id f s.files }

-- `Files.Create`
unfoldable pub create_file : SettlementFile → M (Unit {0})
create_file f = do
  injected "files.create"
  s ← get
  raise_if (is_some (file_by_hash f.file_hash s.files)) duplicate_file
  modify (put_file f)

-- `Files.GetByHash`
unfoldable pub get_file_by_hash : String → M SettlementFile
get_file_by_hash hash s = elim (file_by_hash hash s.files) [
  | some f ↦ (ok f, s)
  | none ↦ (err file_not_found, s)
]

-- `Files.GetByID`
unfoldable pub get_file_by_id : Uuid → M SettlementFile
get_file_by_id id s = elim (lookup uuid_eq id s.files) [
  | some f ↦ (ok f, s)
  | none ↦ (err file_not_found, s)
]

-- `Files.Update`: the file comes back with its new version.
unfoldable pub update_file : SettlementFile → M SettlementFile
update_file f = do
  fail_update
  e ← get_file_by_id f.id
  raise_if (not (e.version == f.version)) concurrent_modification
  let f' : SettlementFile = record f { version = f.version + 1 }
  modify (put_file f')
  pure f'

abbrev lines_of : Uuid → Store → List SettlementLine
lines_of id s = elim (lookup uuid_eq id s.lines) [ some ls ↦ ls | none ↦ [] ]

-- A line whose number is there already is left out.
abbrev insert_line : SettlementLine → Store → Store
insert_line l s =
    if any (λ e. e.line_no == l.line_no) (lines_of l.file_id s)
    then s
    else record s { lines = insert uuid_eq l.file_id (lines_of l.file_id s ++ l ∷ []) s.lines }

abbrev insert_each : List SettlementLine → Store → Store
insert_each [] s = s
insert_each (l ∷ ls) s = insert_each ls (insert_line l s)

-- `Lines.InsertBatch`
unfoldable pub insert_lines : List SettlementLine → M (Unit {0})
insert_lines ls = do injected "lines.insert"; modify (insert_each ls)

abbrev insert_by_no : SettlementLine → List SettlementLine → List SettlementLine
insert_by_no l [] = l ∷ []
insert_by_no l (m ∷ ms) =
    let rest = insert_by_no l ms in if leb m.line_no l.line_no then m ∷ rest else l ∷ m ∷ ms

abbrev sort_by_no : List SettlementLine → List SettlementLine → List SettlementLine
sort_by_no [] out = out
sort_by_no (l ∷ ls) out = sort_by_no ls (insert_by_no l out)

-- `Lines.ListByFile`
unfoldable pub list_lines_by_file : Uuid → M (List SettlementLine)
list_lines_by_file id s = (ok (sort_by_no (lines_of id s) []), s)

-- Whether a record is older than the one that is kept.
abbrev pub is_stale : Option PaymentRecord → PaymentRecord → Bool
is_stale (some e) r = ltb r.source_seq e.source_seq
is_stale none r = false

abbrev pub keep_record : Bool → PaymentRecord → M Bool
keep_record true r s = (ok false, s)
keep_record false r s = (ok true, record s { records = insert uuid_eq r.id r s.records })

-- `Records.Upsert`: whether the record was applied.
unfoldable pub upsert_record : PaymentRecord → M Bool
upsert_record r = do
  injected "records.upsert"
  s ← get
  keep_record (is_stale (lookup uuid_eq r.id s.records) r) r

-- `Records.Get`
unfoldable pub get_record : Uuid → M (Option PaymentRecord)
get_record id s = (ok (lookup uuid_eq id s.records), s)

-- `Records.FindByProviderRefs`
unfoldable pub find_by_provider_refs : String → List String → M (List PaymentRecord)
find_by_provider_refs provider refs s = (
  ok (
      filter
        (λ r. text_eq r.provider provider && any (λ ref. text_eq ref r.provider_reference) refs)
        (values s.records)),
  s,
)

abbrev all_lines : List (List SettlementLine) → List SettlementLine
all_lines [] = []
all_lines (ls ∷ rest) = ls ++ all_lines rest

-- Whether any line of the provider has the key.
abbrev is_settled : String → Store → MatchKey → Bool
is_settled provider s k =
    any (λ l. text_eq l.provider provider && key_eq (line_key l) k) (all_lines (values s.lines))

abbrev take_at_most : {A : Type 0} → ℕ → List A → List A
take_at_most n [] = []
take_at_most n (x ∷ xs) = let rest = take_at_most (n - 1) xs in if n == 0 then [] else x ∷ rest

-- `Records.ListUnsettled`; a limit of 0 is none.
unfoldable pub list_unsettled : String → Time → ℕ → M (List PaymentRecord)
list_unsettled provider before limit s =
    let out =
      filter
        (λ r.
          text_eq r.provider provider
          && (is_settleable r
              && (ltb r.occurred_at before && not (is_settled provider s (record_key r)))))
        (values s.records) in
    (ok (if limit == 0 then out else take_at_most limit out), s)

abbrev pub put_run : Run → Store → Store
put_run r s = record s { runs = insert uuid_eq r.id r s.runs }

-- `Runs.Create`
unfoldable pub create_run : Run → M (Unit {0})
create_run r = do injected "runs.create"; modify (put_run r)

-- `Runs.GetByID`
unfoldable pub get_run_by_id : Uuid → M Run
get_run_by_id id s = elim (lookup uuid_eq id s.runs) [
  | some r ↦ (ok r, s)
  | none ↦ (err run_not_found, s)
]

-- `Runs.Update`: the version must not go back.
unfoldable pub update_run : Run → M (Unit {0})
update_run r = do
  fail_update
  e ← get_run_by_id r.id
  raise_if (ltb r.version e.version) concurrent_modification
  modify (put_run r)

abbrev pub latest : Option Run → Run → Run
latest none r = r
latest (some best) r = if ltb best.created_at r.created_at then r else best

-- The run of a file that was created last; the first of those created at one time.
abbrev pub run_of_file : String → Option Run → List Run → Option Run
run_of_file file best [] = best
run_of_file file best (r ∷ rs) =
    run_of_file file (if text_eq r.summary.file_id file then some (latest best r) else best) rs

-- `Runs.FindByFileID`, by the text of the file's id.
unfoldable pub find_run_by_file_id : String → M (Option Run)
find_run_by_file_id file s = (ok (run_of_file file none (values s.runs)), s)

abbrev pub put_discrepancy : Discrepancy → Store → Store
put_discrepancy d s = record s { discrepancies = insert uuid_eq d.id d s.discrepancies }

abbrev put_discrepancies : List Discrepancy → Store → Store
put_discrepancies [] s = s
put_discrepancies (d ∷ ds) s = put_discrepancies ds (put_discrepancy d s)

-- `Discrepancies.InsertBatch`
unfoldable pub insert_discrepancies : List Discrepancy → M (Unit {0})
insert_discrepancies ds = do injected "discrepancies.insert"; modify (put_discrepancies ds)

-- `Discrepancies.GetByID`
unfoldable pub get_discrepancy_by_id : Uuid → M Discrepancy
get_discrepancy_by_id id s = elim (lookup uuid_eq id s.discrepancies) [
  | some d ↦ (ok d, s)
  | none ↦ (err discrepancy_not_found, s)
]

-- `Discrepancies.Update`
unfoldable pub update_discrepancy : Discrepancy → M (Unit {0})
update_discrepancy d = do
  fail_update
  e ← get_discrepancy_by_id d.id
  raise_if (ltb d.version e.version) concurrent_modification
  modify (put_discrepancy d)

-- Whether a discrepancy is open and of one kind and reference.
abbrev pub is_same_open : String → DiscrepancyKind → String → String → Discrepancy → Bool
is_same_open provider kind provider_ref internal_ref e =
    text_eq e.provider provider
    && (kind_eq e.kind kind
        && (is_open e
            && ((not (text_eq provider_ref "") && text_eq e.provider_reference provider_ref)
                || (not (text_eq internal_ref "") && text_eq e.internal_reference internal_ref))))

-- `Discrepancies.ExistsOpen`
unfoldable pub exists_open : String → DiscrepancyKind → String → String → M Bool
exists_open provider kind provider_ref internal_ref s =
    (ok (any (is_same_open provider kind provider_ref internal_ref) (values s.discrepancies)), s)

-- `Inbox.MarkProcessed`: whether the event had been processed already.
unfoldable pub mark_processed : String → String → M Bool
mark_processed event_id consumer s =
    let k = concat event_id (concat "|" consumer) in
    if any (λ e. text_eq e k) s.processed
    then (ok true, s)
    else (ok false, record s { processed = k ∷ s.processed })

-- `Outbox.Insert`; the id of the message is not used.
unfoldable pub insert_outbox : OutboxMessage → M (Unit {0})
insert_outbox msg = do
  injected "outbox.insert"
  modify (λ s. record s { outbox = s.outbox ++ msg ∷ [] })
