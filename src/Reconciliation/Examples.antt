-- ===== src/Reconciliation/Examples.antt =====
-- A settlement file with a match, a duplicate, a wrong amount, an unknown line and a fee, against
-- records of which one is not in the file.
use payment_gateway.Base.{
  ◌≡◌, refl, ℕ, ◌+◌, ◌*◌, String, true, none, some, [], ◌∷◌, map, length, countp, if◌then◌else◌,
  ◌&&◌,
}
use payment_gateway.Base.Action.{ok}
use payment_gateway.Base.Bags.{counter}
use payment_gateway.Base.Clock.{hour}
use payment_gateway.Base.Int.{pos, wrap64}
use payment_gateway.Ids.{Uuid}
use payment_gateway.Money.{Money}
use payment_gateway.Reconciliation.Settlement.{LineType, SettlementLine, MatchKey}
use payment_gateway.Reconciliation.Record.{RecordKind, PaymentRecord, is_settleable, settles}
use payment_gateway.Reconciliation.Discrepancy.{DiscrepancyKind, kind_eq}
use payment_gateway.Reconciliation.Matcher.{
  MatchInput, match_lines, sum_of, index_records, scan_lines, scan_line, match_line, settle_line,
  compare_line, accumulate, accumulate_amount, accumulate_fee, new_line_discrepancy, describe,
  scan_records, miss_record, passed_over, new_record_discrepancy,
}
use payment_gateway.Reconciliation.Matcher.Accounts.{complete-accounts}
use payment_gateway.Reconciliation.Matcher.Absent.{
  match_lines-reports, listed, on_record, due, reports, report_of, match_time,
}
use payment_gateway.Reconciliation.Matcher.Sums.{total, gross, fees_of, match_lines-totals}
use payment_gateway.Reconciliation.Run.{Run, RunStatus, complete, empty_summary, is_completed}

abbrev usd : ℕ → Money
usd n = record { amount_minor = pos n; currency = "USD" }

abbrev a_line : ℕ → String → LineType → ℕ → ℕ → SettlementLine
a_line n ref t amount fee = record {
  id = 100 + n;
  file_id = 7;
  line_no = n;
  provider = "mock";
  provider_reference = ref;
  merchant_reference = "";
  line_type = t;
  amount = usd amount;
  fee = usd fee;
  settled_at = 5 * hour;
  raw = [];
  created_at = 0;
}

abbrev a_record : ℕ → String → ℕ → PaymentRecord
a_record n ref amount = record {
  id = n;
  kind = RecordKind.payment;
  public_id = "pay_1";
  merchant_id = 3;
  provider = "mock";
  provider_reference = ref;
  amount = usd amount;
  fee = none;
  status = "captured";
  occurred_at = hour;
  source_seq = 1;
  created_at = 0;
  updated_at = 0;
}

abbrev settlement : MatchInput
settlement = record {
  provider = "mock";
  lines =
      a_line 1 "ch_1" LineType.payment 1000 30
      ∷ a_line 2 "ch_1" LineType.payment 1000 30
      ∷ a_line 3 "ch_2" LineType.payment 501 10
      ∷ a_line 4 "ch_9" LineType.payment 5 1
      ∷ a_line 5 "fee_1" LineType.fee 12 0
      ∷ [];
  records = a_record 1 "ch_1" 1000 ∷ a_record 2 "ch_2" 500 ∷ a_record 3 "ch_3" 900 ∷ [];
  now = 100 * hour;
  grace_period = 72 * hour;
}

abbrev fresh : ℕ → Uuid
fresh n = 1000 + n

-- What each discrepancy is, in order.
settlement_kinds :
    map (λ d. d.kind) (match_lines fresh 0 settlement).discrepancies
    ≡ DiscrepancyKind.missing_in_ledger ∷ DiscrepancyKind.amount_mismatch
      ∷ DiscrepancyKind.missing_in_ledger ∷ DiscrepancyKind.missing_in_psp ∷ []
unfolding match_lines index_records scan_lines scan_line match_line settle_line compare_line
    accumulate accumulate_amount accumulate_fee new_line_discrepancy describe scan_records
    miss_record passed_over new_record_discrepancy is_settleable settles
settlement_kinds = refl

abbrev a_run : Run
a_run = record {
  id = 1;
  public_id = "rr_1";
  provider = "mock";
  period_start = 0;
  period_end = 24 * hour;
  status = RunStatus.running;
  matched_count = 0;
  unmatched_count = 0;
  summary = empty_summary;
  error = "";
  started_at = some (90 * hour);
  finished_at = none;
  triggered_by = "api";
  created_at = 0;
  updated_at = 0;
  version = 1;
}

completed_now : (complete (match_lines fresh 0 settlement) (100 * hour) a_run).0 ≡ ok tt
unfolding complete
completed_now = refl

complete-accounts_example :
    let r' = (complete (match_lines fresh 0 settlement) (100 * hour) a_run).1 in
    (r'.summary.matched + r'.summary.skipped + r'.summary.unmatched
      ≡ length settlement.lines + counter kind_eq DiscrepancyKind.missing_in_psp r'.summary.by_kind)
    × (r'.summary.total_lines ≡ length settlement.lines)
    × (r'.matched_count ≡ r'.summary.matched)
    × (r'.unmatched_count ≡ r'.summary.unmatched)
    × (is_completed r'.status ≡ true)
complete-accounts_example = complete-accounts fresh 0 (100 * hour) settlement a_run completed_now

abbrev missed : MatchKey
missed = record { provider_reference = "ch_3"; line_type = LineType.payment }

match_lines-reports_example :
    countp (reports missed) (match_lines fresh 0 settlement).discrepancies ≡ (
      if listed missed settlement.lines && on_record missed settlement.provider settlement.records
      then 0
      else report_of missed
          (match_time 0 settlement)
          settlement.grace_period
          (due missed settlement.records))
match_lines-reports_example = match_lines-reports fresh 0 settlement missed

match_lines-totals_example :
    let t = (match_lines fresh 0 settlement).totals in
    (sum_of "USD" t.settled ≡ wrap64 (total (gross "USD" LineType.payment) settlement.lines))
    × (sum_of "USD" t.refunds ≡ wrap64 (total (gross "USD" LineType.refund) settlement.lines))
    × (sum_of "USD" t.chargebacks
        ≡ wrap64 (total (gross "USD" LineType.chargeback) settlement.lines))
    × (sum_of "USD" t.fees ≡ wrap64 (total (fees_of "USD") settlement.lines))
match_lines-totals_example = match_lines-totals fresh 0 settlement "USD"
