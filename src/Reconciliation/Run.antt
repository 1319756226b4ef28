-- ===== src/Reconciliation/Run.antt =====
-- internal/reconciliation/domain/run.go: one run of the reconciliation, from pending to its end. The
-- parser of dates is the standard library's and an argument.
use payment_gateway.Base.{
  ℕ, ◌+◌, ◌*◌, String, Bool, true, false, Option, none, some, List, [], ◌∷◌, ◌&&◌, not, length, ltb,
  text_eq, if◌then◌else◌,
}
use payment_gateway.Base.Action.{Result, ok, err}
use payment_gateway.Base.Ascii.{trim_space}
use payment_gateway.Base.Bags.{counter}
use payment_gateway.Base.Clock.{Time, hour}
use payment_gateway.Base.Dict.{insert}
use payment_gateway.Base.Int.{ℤ, pos, quot64, sub_ℕ}
use payment_gateway.Base.Method.{Method, raise_if, get, modify, ◌>>=◌, ◌>>◌}
use payment_gateway.Ids.{Uuid, format, parse_with_prefix}
use payment_gateway.Reconciliation.Discrepancy.{
  ReconError, invalid_period, invalid_transition, run_not_found, Discrepancy, DiscrepancyKind,
  kind_eq,
}
use payment_gateway.Reconciliation.Matcher.{MatchResult, Sums}

pub data RunStatus : Type 0 where
  pending running completed failed : RunStatus

abbrev pub is_pending : RunStatus → Bool
is_pending RunStatus.pending = true
is_pending _ = false

abbrev pub is_running : RunStatus → Bool
is_running RunStatus.running = true
is_running _ = false

abbrev pub is_completed : RunStatus → Bool
is_completed RunStatus.completed = true
is_completed _ = false

pub record RunSummary : Type 0 where
  pub file_id : String
  pub file_name : String
  pub file_hash : String
  pub file_format : String
  pub file_size_bytes : ℕ
  pub total_lines : ℕ
  pub matched : ℕ
  pub unmatched : ℕ
  pub skipped : ℕ
  pub deferred : ℕ
  pub suppressed : ℕ
  pub by_kind : List (DiscrepancyKind × ℕ)
  pub total_settled : Sums
  pub total_fees : Sums
  pub total_refunds : Sums
  pub total_chargebacks : Sums
  pub duration_ms : ℤ

pub record Run : Type 0 where
  pub id : Uuid
  pub public_id : String
  pub provider : String
  pub period_start : Time
  pub period_end : Time
  pub status : RunStatus
  pub matched_count : ℕ
  pub unmatched_count : ℕ
  pub summary : RunSummary
  pub error : String
  pub started_at : Option Time
  pub finished_at : Option Time
  pub triggered_by : String
  pub created_at : Time
  pub updated_at : Time
  pub version : ℕ

abbrev pub empty_summary : RunSummary
empty_summary = record {
  file_id = "";
  file_name = "";
  file_hash = "";
  file_format = "";
  file_size_bytes = 0;
  total_lines = 0;
  matched = 0;
  unmatched = 0;
  skipped = 0;
  deferred = 0;
  suppressed = 0;
  by_kind = [];
  total_settled = [];
  total_fees = [];
  total_refunds = [];
  total_chargebacks = [];
  duration_ms = pos 0;
}

-- `NewRun`, under a fresh id.
unfoldable pub new_run : Uuid → String → Time → Time → String → Time → Result ReconError Run
new_run id provider period_start period_end triggered_by now =
    if not (ltb period_start period_end)
    then err invalid_period
    else ok (record {
      id = id;
      public_id = format "rr" id;
      provider = provider;
      period_start = period_start;
      period_end = period_end;
      status = RunStatus.pending;
      matched_count = 0;
      unmatched_count = 0;
      summary = empty_summary;
      error = "";
      started_at = none;
      finished_at = none;
      triggered_by = if text_eq (trim_space triggered_by) "" then "api" else triggered_by;
      created_at = now;
      updated_at = now;
      version = 0;
    })

-- `ParseRunID`
unfoldable pub parse_run_id : String → Result ReconError Uuid
parse_run_id s = elim (parse_with_prefix s "rr") [ ok u ↦ ok u | err _ ↦ err run_not_found ]

-- `Start`
unfoldable pub start : Time → Method Run ReconError (Unit {0})
start now = do
  r ← get
  raise_if (not (is_pending r.status)) invalid_transition
  modify (λ r. record r {
    status = RunStatus.running;
    started_at = some now;
    updated_at = now;
    version = r.version + 1;
  })

-- The loop that counts the discrepancies of each kind.
unfoldable pub count_kinds :
    List Discrepancy → List (DiscrepancyKind × ℕ) → List (DiscrepancyKind × ℕ)
count_kinds [] m = m
count_kinds (d ∷ ds) m = count_kinds ds (insert kind_eq d.kind (counter kind_eq d.kind m + 1) m)

-- `now.Sub(started).Milliseconds()`
abbrev pub milliseconds : Time → Time → ℤ
milliseconds started now = quot64 (sub_ℕ now started) (pos 1_000_000)

-- What `Complete` writes into the summary.
unfoldable pub summarize : MatchResult → Time → Time → RunSummary → RunSummary
unfolding count_kinds
summarize res started now s = record s {
  total_lines = res.total_lines;
  matched = length res.matched;
  unmatched = length res.discrepancies;
  skipped = res.skipped;
  deferred = res.deferred;
  by_kind = count_kinds res.discrepancies [];
  total_settled = res.totals.settled;
  total_fees = res.totals.fees;
  total_refunds = res.totals.refunds;
  total_chargebacks = res.totals.chargebacks;
  duration_ms = milliseconds started now;
}

abbrev started_or : Time → Option Time → Time
started_or now (some t) = t
started_or now none = now

-- `Complete`
unfoldable pub complete : MatchResult → Time → Method Run ReconError (Unit {0})
unfolding summarize
complete res now = do
  r ← get
  raise_if (not (is_running r.status) && not (is_pending r.status)) invalid_transition
  modify (λ r. record r {
    started_at = some (started_or now r.started_at);
    status = RunStatus.completed;
    matched_count = length res.matched;
    unmatched_count = length res.discrepancies;
    summary = summarize res (started_or now r.started_at) now r.summary;
    finished_at = some now;
    updated_at = now;
    version = r.version + 1;
  })

-- `Fail`
unfoldable pub fail : String → Time → Method Run ReconError (Unit {0})
fail reason now = do
  r ← get
  raise_if (is_completed r.status) invalid_transition
  modify (λ r. record r {
    status = RunStatus.failed;
    error = reason;
    finished_at = some now;
    updated_at = now;
    version = r.version + 1;
  })

-- `PeriodForDate`
unfoldable pub period_for_date : (String → Option Time) → String → Result ReconError (Time × Time)
period_for_date parse_date date = elim (parse_date (trim_space date)) [
  | some start ↦ ok (start, start + 24 * hour)
  | none ↦ err invalid_period
]
