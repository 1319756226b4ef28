-- ===== src/Reconciliation/Closing.antt =====
-- internal/reconciliation/app/service.go: the closing of a discrepancy, over the store in memory.
pub mod Repeat
use payment_gateway.Base.{
  ℕ, suc, ◌+◌, ◌-◌, ◌==◌, ltb, leb, String, Bool, true, false, Option, none, some, List, [], ◌∷◌,
  ◌++◌, ◌&&◌, ◌||◌, not, any, length, codes, text_eq, if◌then◌else◌,
}
use payment_gateway.Base.Action.{Result, ok, err}
use payment_gateway.Base.Ascii.{trim_space, to_lower}
use payment_gateway.Base.Clock.{Time}
use payment_gateway.Base.Method.{Method, pure, raise, raise_if, lift, modify, ◌>>=◌, ◌>>◌}
use payment_gateway.Ids.{Uuid, nil_uuid}
use payment_gateway.Money.{Money}
use payment_gateway.Webhook.Truncate.{prefix}
use payment_gateway.Reconciliation.Settlement.{
  FileStatus, SettlementFile, SettlementLine, matchable, new_settlement_file, mark_importing,
  mark_imported, mark_failed, net,
}
use payment_gateway.Reconciliation.Record.{PaymentRecord, RecordKind, kind_text}
use payment_gateway.Reconciliation.Discrepancy.{
  ReconError, parameter_missing, parameter_invalid, unknown_format, file_not_found, duplicate_file,
  Discrepancy, DiscrepancyStatus, Detail, text, is_open, detail, set_detail, public_id, resolve,
  ignore, parse_discrepancy_id,
}
use payment_gateway.Reconciliation.Matcher.{MatchResult, MatchedPair, match_lines}
use payment_gateway.Reconciliation.Run.{Run, new_run, start, complete, period_for_date}
use payment_gateway.Reconciliation.Event.{
  OutboxMessage, Payload, run_completed, settlement_posted, discrepancy_resolved,
}
use payment_gateway.Reconciliation.Command.{Parser, Env, ImportCommand, check_import}
use payment_gateway.Reconciliation.Store.{
  Store, M, within_tx, create_file, get_file_by_hash, update_file, insert_lines, list_lines_by_file,
  find_by_provider_refs, list_unsettled, create_run, update_run, get_run_by_id, find_run_by_file_id,
  insert_discrepancies, get_discrepancy_by_id, update_discrepancy, exists_open, insert_outbox,
}
use payment_gateway.Reconciliation.Reconcile.{on_value, message, emit, reconcile}

pub data ResolutionAction : Type 0 where
  resolve_action ignore_action other : ResolutionAction

pub record ResolveCommand : Type 0 where
  pub discrepancy_id : String
  pub action : ResolutionAction
  pub note : String
  pub resolved_by : String
  pub idempotency_key : String

-- The `switch` on the action.
abbrev pub act : ResolutionAction → ResolveCommand → Time → Method Discrepancy ReconError (Unit {0})
act ResolutionAction.resolve_action cmd now = resolve cmd.note cmd.resolved_by now
act ResolutionAction.ignore_action cmd now = ignore cmd.note cmd.resolved_by now
act ResolutionAction.other cmd now = raise parameter_invalid

abbrev pub keep_key : String → Discrepancy → Discrepancy
keep_key key d = if not (text_eq key "") then set_detail "idempotency_key" (text key) d else d

-- The public id of a run that was read, and "" where it was not.
abbrev pub named : Result ReconError Run × Store → Result ReconError String × Store
named (ok run, s) = (ok run.public_id, s)
named (err e, s) = (ok "", s)

abbrev pub run_name : Uuid → M String
run_name id s = named (get_run_by_id id s)

abbrev pub resolved_event : Discrepancy → String → Time → Payload
resolved_event d run now = discrepancy_resolved (record {
  discrepancy_id = public_id d;
  run_id = run;
  provider = d.provider;
  kind = d.kind;
  status = d.status;
  provider_reference = d.provider_reference;
  internal_reference = d.internal_reference;
  resolution_note = d.resolution_note;
  resolved_by = d.resolved_by;
  occurred_at = now;
})

abbrev pub close_discrepancy : Bool → Env → ResolveCommand → Discrepancy → M Discrepancy
close_discrepancy true env cmd d = pure d
close_discrepancy false env cmd d = do
  closed ← on_value (act cmd.action cmd env.now) d
  let d' : Discrepancy = keep_key cmd.idempotency_key closed
  update_discrepancy d'
  run ← run_name d'.run_id
  emit "discrepancy" (public_id d') "reconciliation.discrepancy.resolved"
      (resolved_event d' run env.now)
  pure d'

-- Whether a request was answered already.
abbrev pub is_repeat : ResolveCommand → Discrepancy → Bool
is_repeat cmd d =
    not (text_eq cmd.idempotency_key "")
    && (not (is_open d) && text_eq (detail "idempotency_key" d) cmd.idempotency_key)

-- The transaction of `ResolveDiscrepancy`.
unfoldable pub answer : Env → ResolveCommand → Uuid → M Discrepancy
answer env cmd id =
    within_tx (do d ← get_discrepancy_by_id id; close_discrepancy (is_repeat cmd d) env cmd d)

-- `ResolveDiscrepancy`
unfoldable pub resolve_discrepancy : Env → ResolveCommand → M Discrepancy
resolve_discrepancy env cmd = do
  id ← lift (λ e. e) (parse_discrepancy_id env.parse_uuid cmd.discrepancy_id)
  answer env cmd id
