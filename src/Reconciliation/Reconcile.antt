-- ===== src/Reconciliation/Reconcile.antt =====
-- internal/reconciliation/app/service.go: the reconciliation of the lines of a file, over the store in
-- memory.
pub mod Stored
use payment_gateway.Base.{
  ℕ, suc, ◌+◌, ◌-◌, ◌==◌, ltb, leb, String, Bool, true, false, Option, none, some, List, [], ◌∷◌,
  ◌++◌, ◌&&◌, ◌||◌, not, any, length, codes, text_eq, if◌then◌else◌,
}
use payment_gateway.Base.Action.{Result, ok, err}
use payment_gateway.Base.Ascii.{trim_space, to_lower}
use payment_gateway.Base.Clock.{Time}
use payment_gateway.Base.Method.{Method, pure, raise, raise_if, lift, modify, ◌>>=◌, ◌>>◌}
use payment_gateway.Ids.{Uuid, nil_uuid}
use payment_gateway.Money.{Money}
use payment_gateway.Webhook.Truncate.{prefix}
use payment_gateway.Reconciliation.Settlement.{
  FileStatus, SettlementFile, SettlementLine, matchable, new_settlement_file, mark_importing,
  mark_imported, mark_failed, net,
}
use payment_gateway.Reconciliation.Record.{PaymentRecord, RecordKind, kind_text}
use payment_gateway.Reconciliation.Discrepancy.{
  ReconError, parameter_missing, parameter_invalid, unknown_format, file_not_found, duplicate_file,
  Discrepancy, DiscrepancyStatus, Detail, text, is_open, detail, set_detail, public_id, resolve,
  ignore, parse_discrepancy_id,
}
use payment_gateway.Reconciliation.Matcher.{MatchResult, MatchedPair, match_lines}
use payment_gateway.Reconciliation.Run.{Run, new_run, start, complete, period_for_date}
use payment_gateway.Reconciliation.Event.{
  OutboxMessage, Payload, run_completed, settlement_posted, discrepancy_resolved,
}
use payment_gateway.Reconciliation.Command.{Parser, Env, ImportCommand, check_import}
use payment_gateway.Reconciliation.Store.{
  Store, M, within_tx, create_file, get_file_by_hash, update_file, insert_lines, list_lines_by_file,
  find_by_provider_refs, list_unsettled, create_run, update_run, get_run_by_id, find_run_by_file_id,
  insert_discrepancies, get_discrepancy_by_id, update_discrepancy, exists_open, insert_outbox,
}

-- A method of an aggregate on a value that is not stored yet: the value after it.
unfoldable pub on_value : {A : Type 0} → Method A ReconError (Unit {0}) → A → M A
on_value m a s = let (r, a') = m a in elim r [ ok _ ↦ (ok a', s) | err e ↦ (err e, s) ]

abbrev has : String → List String → Bool
has s ss = any (λ t. text_eq t s) ss

-- The references of the lines that take part, each once, in order.
abbrev pub references : List SettlementLine → List String → List String
references [] seen = seen
references (l ∷ ls) seen = references ls (
    if matchable l.line_type && not (has l.provider_reference seen)
    then seen ++ l.provider_reference ∷ []
    else seen)

-- What a discrepancy adds to what is to be inserted and to how many are suppressed.
abbrev pub screened : Time → Run → Discrepancy → Bool → List Discrepancy × ℕ → List Discrepancy × ℕ
screened now run d true (rest, suppressed) = (rest, suppressed + 1)
screened now run d false (rest, suppressed) =
    ((record d { run_id = run.id; created_at = now; updated_at = now }) ∷ rest, suppressed)

-- The loop that leaves out what an open discrepancy says already.
unfoldable pub screen_open : Time → Run → List Discrepancy → M (List Discrepancy × ℕ)
unfolding exists_open
screen_open now run [] = pure ([], 0)
screen_open now run (d ∷ ds) = do
  open_already ← exists_open run.provider d.kind d.provider_reference d.internal_reference
  rest ← screen_open now run ds
  pure (screened now run d open_already rest)

-- `emit`
abbrev pub message : String → String → String → Payload → OutboxMessage
message aggregate_type aggregate_id event_type payload = record {
  aggregate_type = aggregate_type;
  aggregate_id = aggregate_id;
  event_type = event_type;
  payload = payload;
  headers = ("content-type", "application/json") ∷ [];
}

abbrev pub emit : String → String → String → Payload → M (Unit {0})
emit aggregate_type aggregate_id event_type payload =
    insert_outbox (message aggregate_type aggregate_id event_type payload)

abbrev in_currency : String → Money → Money
in_currency currency m = record { amount_minor = m.amount_minor; currency = currency }

abbrev pub posted : Env → Run → SettlementFile → MatchedPair → Payload
posted env run file p = settlement_posted (record {
  settlement_id = run.public_id;
  run_id = run.public_id;
  file_id = env.print_uuid file.id;
  provider = run.provider;
  merchant_id = env.print_uuid p.rec.merchant_id;
  payment_id = p.rec.public_id;
  record_kind = kind_text p.rec.kind;
  provider_reference = p.line.provider_reference;
  gross = p.line.amount;
  psp_fee = in_currency p.line.amount.currency p.line.fee;
  net_paid = in_currency p.line.amount.currency (net p.line);
  settled_at = p.line.settled_at;
  occurred_at = env.reconcile_now;
})

abbrev pub is_payment : RecordKind → Bool
is_payment RecordKind.payment = true
is_payment _ = false

abbrev pub post_if : Bool → M (Unit {0}) → M (Unit {0})
post_if true m = m
post_if false m = pure tt

-- The loop that posts one event for each payment that matched.
unfoldable pub post_settlements : Env → Run → SettlementFile → List MatchedPair → M (Unit {0})
post_settlements env run file [] = pure tt
post_settlements env run file (p ∷ ps) = do
  post_if (is_payment p.rec.kind)
      (emit "settlement" p.rec.public_id "settlement.posted" (posted env run file p))
  post_settlements env run file ps

abbrev pub completed_event : Env → Run → SettlementFile → Payload
completed_event env run file = run_completed (record {
  run_id = run.public_id;
  provider = run.provider;
  file_id = env.print_uuid file.id;
  file_hash = file.file_hash;
  period_start = run.period_start;
  period_end = run.period_end;
  status = run.status;
  summary = run.summary;
  occurred_at = env.reconcile_now;
})

abbrev pub suppress : ℕ → Run → Run
suppress n run = record run { summary = record run.summary { suppressed = n } }

-- The end of `reconcile`: the run is stored and the events are written.
unfoldable pub publish : Env → Run → SettlementFile → List MatchedPair → M Run
publish env run file matched = do
  update_run run
  emit "reconciliation_run" run.public_id "reconciliation.run.completed"
      (completed_event env run file)
  post_settlements env run file matched
  pure run

abbrev pub match_records : Env → Run → List SettlementLine → List PaymentRecord → MatchResult
match_records env run lines records = match_lines env.discrepancy_id env.reconcile_now (record {
  provider = run.provider;
  lines = lines;
  records = records;
  now = env.reconcile_now;
  grace_period = env.grace_period;
})

-- `reconcile`: the run comes back as it was stored.
unfoldable pub reconcile : Env → Run → SettlementFile → List SettlementLine → M Run
reconcile env run file lines = do
  records ← find_by_provider_refs run.provider (references lines [])
  unsettled ← list_unsettled run.provider (env.reconcile_now - env.grace_period) env.max_unsettled
  let res : MatchResult = match_records env run lines (records ++ unsettled)
  (to_insert, suppressed) ← screen_open env.reconcile_now run res.discrepancies
  insert_discrepancies to_insert
  done ← on_value (complete res env.reconcile_now) run
  publish env (suppress suppressed done) file res.matched
