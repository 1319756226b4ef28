-- ===== src/Reconciliation/Requests.antt =====
-- An import of a file of two lines, and a discrepancy that is resolved, each sent twice.
use payment_gateway.Base.{
  ◌≡◌, refl, ℕ, ◌+◌, ◌*◌, String, Bool, true, false, arith, none, some, [], ◌∷◌, length,
}
use payment_gateway.Base.Action.{Result, ok, err}
use payment_gateway.Base.Clock.{hour}
use payment_gateway.Base.Int.{pos}
use payment_gateway.Money.{Money}
use payment_gateway.Reconciliation.Settlement.{
  LineType, FileStatus, SettlementLine, SettlementFile, new_settlement_file, mark_importing,
  mark_imported, net,
}
use payment_gateway.Reconciliation.Record.{
  RecordKind, PaymentRecord, is_settleable, settles, settleable_statuses,
}
use payment_gateway.Reconciliation.Discrepancy.{
  ReconError, Discrepancy, DiscrepancyKind, open_status, parse_discrepancy_id, resolve, close,
}
use payment_gateway.Reconciliation.Matcher.{
  match_lines, index_records, scan_lines, scan_line, match_line, settle_line, compare_line,
  accumulate, accumulate_amount, accumulate_fee, new_line_discrepancy, describe, scan_records,
  miss_record, passed_over, new_record_discrepancy,
}
use payment_gateway.Reconciliation.Run.{
  Run, RunStatus, new_run, start, complete, summarize, count_kinds, period_for_date, empty_summary,
}
use payment_gateway.Reconciliation.Store.{
  Store, new_store, injected, fail_update, within_tx, create_file, get_file_by_hash, get_file_by_id,
  update_file, insert_lines, find_by_provider_refs, list_unsettled, create_run, update_run,
  get_run_by_id, find_run_by_file_id, insert_discrepancies, exists_open, insert_outbox,
  get_discrepancy_by_id, update_discrepancy,
}
use payment_gateway.Reconciliation.Command.{Parser, Env, ImportCommand, check_import}
use payment_gateway.Reconciliation.Reconcile.{
  on_value, screen_open, post_settlements, publish, reconcile,
}
use payment_gateway.Reconciliation.Import.{
  ImportResult, import_settlement_file, file_or_none, find_imported, load_or_create_file, run_file,
  import_lines, import_tx,
}
use payment_gateway.Reconciliation.Closing.{
  ResolutionAction, ResolveCommand, resolve_discrepancy, answer,
}
use payment_gateway.Reconciliation.Import.Again.{import-import_again}
use payment_gateway.Reconciliation.Closing.Repeat.{resolve-resolve_again}

abbrev usd : ℕ → Money
usd n = record { amount_minor = pos n; currency = "USD" }

abbrev a_line : ℕ → String → SettlementLine
a_line n ref = record {
  id = 0;
  file_id = 0;
  line_no = n;
  provider = "mock";
  provider_reference = ref;
  merchant_reference = "";
  line_type = LineType.payment;
  amount = usd 1000;
  fee = usd 30;
  settled_at = 5 * hour;
  raw = [];
  created_at = 0;
}

abbrev a_record : PaymentRecord
a_record = record {
  id = 1;
  kind = RecordKind.payment;
  public_id = "pay_1";
  merchant_id = 3;
  provider = "mock";
  provider_reference = "ch_1";
  amount = usd 1000;
  fee = none;
  status = "captured";
  occurred_at = hour;
  source_seq = 1;
  created_at = 0;
  updated_at = 0;
}

abbrev mock_parser : Parser
mock_parser = record { provider = "mock"; parse = λ _. ok (a_line 1 "ch_1" ∷ a_line 2 "ch_9" ∷ []) }

abbrev an_env : Env
an_env = record {
  grace_period = 72 * hour;
  max_unsettled = 0;
  parser_for = λ _. ok mock_parser;
  file_hash = λ c. c;
  parse_date = λ _. some (240 * hour);
  parse_uuid = λ _. some 9;
  print_uuid = λ _. "file";
  error_text = λ _. "";
  file_id = 50;
  run_id = 60;
  line_id = λ n. 70 + n;
  discrepancy_id = λ n. 80 + n;
  now = 300 * hour;
  reconcile_now = 300 * hour;
}

abbrev a_command : ImportCommand
a_command = record {
  provider = "mock";
  format = "mock_csv";
  file_name = "a.csv";
  content = "abc";
  settlement_date = "1-1-11";
  triggered_by = "";
  storage_uri = "";
  expected_checksum = "";
}

abbrev before : Store
before = record new_store { records = (1, a_record) ∷ [] }

abbrev after : Store
after = (import_settlement_file an_env a_command before).1

abbrev a_file : SettlementFile
a_file = record {
  id = 0;
  provider = "";
  file_name = "";
  file_hash = "";
  storage_uri = "";
  period_start = none;
  period_end = none;
  row_count = 0;
  status = FileStatus.failed;
  error = "";
  imported_at = none;
  metadata = [];
  created_at = 0;
  updated_at = 0;
  version = 0;
}

abbrev a_run : Run
a_run = record {
  id = 0;
  public_id = "";
  provider = "";
  period_start = 0;
  period_end = 0;
  status = RunStatus.failed;
  matched_count = 0;
  unmatched_count = 0;
  summary = empty_summary;
  error = "";
  started_at = none;
  finished_at = none;
  triggered_by = "";
  created_at = 0;
  updated_at = 0;
  version = 0;
}

abbrev or_failed : Result ReconError ImportResult → ImportResult
or_failed (ok r) = r
or_failed (err e) = record { run = a_run; file = a_file; already_imported = false }

abbrev imported_first : ImportResult
imported_first = or_failed (import_settlement_file an_env a_command before).0

-- One match, one unknown line: a run, a discrepancy and two events.
import_effects :
    (imported_first.run.matched_count ≡ 1)
    × (length after.discrepancies ≡ 1)
    × (length after.outbox ≡ 2)
unfolding import_settlement_file check_import find_imported within_tx file_or_none get_file_by_hash
    load_or_create_file new_settlement_file create_file injected mark_importing update_file
    fail_update get_file_by_id import_tx import_lines insert_lines mark_imported run_file new_run
    create_run on_value start reconcile find_by_provider_refs list_unsettled screen_open exists_open
    insert_discrepancies complete summarize count_kinds publish update_run get_run_by_id
    insert_outbox post_settlements net match_lines index_records scan_lines scan_line match_line
    settle_line compare_line accumulate accumulate_amount accumulate_fee new_line_discrepancy
    describe scan_records miss_record passed_over new_record_discrepancy is_settleable settles
    settleable_statuses period_for_date find_run_by_file_id
import_effects = (refl, refl, refl)

abbrev returned : Result ReconError ImportResult → Bool
returned (ok r) = true
returned (err e) = false

on_return :
    (x : Result ReconError ImportResult × Store)
    → returned x.0 ≡ true
    → x ≡ (ok (or_failed x.0), x.1)
on_return (ok r, s) h = refl
on_return (err e, s) h = absurd (ground (arith, h))

imported_returns : returned (import_settlement_file an_env a_command before).0 ≡ true
unfolding import_settlement_file check_import find_imported within_tx file_or_none get_file_by_hash
    load_or_create_file new_settlement_file create_file injected mark_importing update_file
    fail_update get_file_by_id import_tx import_lines insert_lines mark_imported run_file new_run
    create_run on_value start reconcile find_by_provider_refs list_unsettled screen_open exists_open
    insert_discrepancies complete summarize count_kinds publish update_run get_run_by_id
    insert_outbox post_settlements net match_lines index_records scan_lines scan_line match_line
    settle_line compare_line accumulate accumulate_amount accumulate_fee new_line_discrepancy
    describe scan_records miss_record passed_over new_record_discrepancy is_settleable settles
    settleable_statuses period_for_date find_run_by_file_id
imported_returns = refl

imported_once : import_settlement_file an_env a_command before ≡ (ok imported_first, after)
imported_once = on_return (import_settlement_file an_env a_command before) imported_returns

import-import_again_example :
    (again : ImportResult) × (import_settlement_file
        (record an_env {
          file_id = 51;
          run_id = 61;
          line_id = λ n. 170 + n;
          discrepancy_id = λ n. 180 + n;
          now = 400 * hour;
          reconcile_now = 400 * hour;
        })
        a_command
        after
      ≡ (ok again, record after { tx_count = after.tx_count + 1 }))
    × (again.already_imported ≡ true)
    × (again.file.file_hash ≡ "abc")
    × (again.run.summary.file_id ≡ "file")
import-import_again_example =
    import-import_again an_env a_command before after imported_first 51 61 (λ n. 170 + n)
      (λ n. 180 + n) (400 * hour) (400 * hour) tt imported_once

abbrev a_discrepancy : Discrepancy
a_discrepancy = record {
  id = 9;
  run_id = 60;
  merchant_id = none;
  kind = DiscrepancyKind.amount_mismatch;
  provider = "mock";
  provider_reference = "ch_1";
  internal_reference = "pay_1";
  settlement_line_id = none;
  expected_amount = none;
  actual_amount = none;
  currency = "USD";
  status = open_status;
  resolution_note = "";
  resolved_by = "";
  resolved_at = none;
  details = [];
  created_at = 0;
  updated_at = 0;
  version = 0;
}

abbrev closing_command : ResolveCommand
closing_command = record {
  discrepancy_id = "9";
  action = ResolutionAction.resolve_action;
  note = "";
  resolved_by = "ops";
  idempotency_key = "k1";
}

abbrev with_discrepancy : Store
with_discrepancy = record new_store { discrepancies = (9, a_discrepancy) ∷ [] }

abbrev or_open : Result ReconError Discrepancy → Discrepancy
or_open (ok d) = d
or_open (err e) = a_discrepancy

abbrev closed_first : Discrepancy
closed_first = or_open (resolve_discrepancy an_env closing_command with_discrepancy).0

abbrev after_closing : Store
after_closing = (resolve_discrepancy an_env closing_command with_discrepancy).1

closed_once :
    resolve_discrepancy an_env closing_command with_discrepancy ≡ (ok closed_first, after_closing)
unfolding resolve_discrepancy answer parse_discrepancy_id within_tx get_discrepancy_by_id on_value
    resolve close update_discrepancy fail_update get_run_by_id insert_outbox injected
closed_once = refl

-- The first request writes one event.
closed_event : length after_closing.outbox ≡ 1
unfolding resolve_discrepancy answer parse_discrepancy_id within_tx get_discrepancy_by_id on_value
    resolve close update_discrepancy fail_update get_run_by_id insert_outbox injected
closed_event = refl

resolve-resolve_again_example :
    resolve_discrepancy (record an_env { now = 400 * hour }) closing_command after_closing
    ≡ (ok closed_first, record after_closing { tx_count = after_closing.tx_count + 1 })
resolve-resolve_again_example =
    resolve-resolve_again an_env closing_command with_discrepancy after_closing closed_first
      (400 * hour) (refl, tt) refl closed_once
