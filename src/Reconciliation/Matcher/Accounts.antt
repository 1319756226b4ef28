-- ===== src/Reconciliation/Matcher/Accounts.antt =====
-- `Match` of internal/reconciliation/domain/matcher.go and `Complete` of run.go: every line of the
-- file is accounted for.
use payment_gateway.Base.{
  ◌≡◌, refl, ◌∙◌, arith, ℕ, suc, ◌+◌, String, Bool, true, false, none, List, [], ◌∷◌, length,
  length-append, countp, countp-append, Bool-cases, Option-cases, inl, inr, not, ◌&&◌,
}
use payment_gateway.Base.Action.{ok}
use payment_gateway.Base.Bags.{counter, counter-insert}
use payment_gateway.Base.Clock.{Time}
use payment_gateway.Base.Dict.{lookup, insert}
use payment_gateway.Ids.{Uuid}
use payment_gateway.Reconciliation.Settlement.{
  SettlementLine, MatchKey, key_eq, line_key, matchable,
}
use payment_gateway.Reconciliation.Record.{PaymentRecord, record_key}
use payment_gateway.Reconciliation.Discrepancy.{Discrepancy, DiscrepancyKind, kind_eq, Details}
use payment_gateway.Reconciliation.Matcher.{
  MatchInput, MatchResult, Scan, Index, contains, compare_line, settle_line, match_line, scan_line,
  scan_lines, scan_records, miss_record, match_lines, new_line_discrepancy, new_record_discrepancy,
  index_records, passed_over, in_grace, add_discrepancy, start_scan,
}
use payment_gateway.Reconciliation.Matcher.Made.{
  compare_line-kind, new_line_discrepancy-kind, kind_eq_iff,
}
use payment_gateway.Reconciliation.Run.{
  Run, complete, count_kinds, summarize, is_running, is_pending, is_completed,
}

abbrev pub is_absence : Discrepancy → Bool
is_absence d = kind_eq d.kind DiscrepancyKind.missing_in_psp

abbrev pub absences : MatchResult → ℕ
absences res = countp is_absence res.discrepancies

abbrev pub found : MatchResult → ℕ
found res = length res.matched + res.skipped + length res.discrepancies

-- A step that accounts for one line.
abbrev OneMore : MatchResult → MatchResult → Type 0
OneMore old new =
    (found new ≡ suc (found old))
    × (absences new ≡ absences old)
    × (new.total_lines ≡ old.total_lines)
    × (new.deferred ≡ old.deferred)

OneMore-add :
    (d : Discrepancy) (res : MatchResult)
    → is_absence d ≡ false
    → OneMore res (add_discrepancy d res)
OneMore-add d res h =
    let n = length-append res.discrepancies (d ∷ []) in
    let k = countp-append is_absence res.discrepancies (d ∷ []) in
    (omega (arith, n), ground (arith, k, h), refl, refl)

OneMore-missing :
    (id : Uuid) (p : String) (l : SettlementLine) (ds : Details) (res : MatchResult)
    → OneMore res (
        add_discrepancy (new_line_discrepancy id DiscrepancyKind.missing_in_ledger p l none ds) res)
OneMore-missing id p l ds res =
    OneMore-add _ res
      (rw (new_line_discrepancy-kind id DiscrepancyKind.missing_in_ledger p l none ds) refl)

settle_line-OneMore :
    (fresh : ℕ → Uuid) (p : String) (l : SettlementLine) (r : PaymentRecord) (res : MatchResult)
    → OneMore res (settle_line fresh p l r res)
unfolding settle_line
settle_line-OneMore fresh p l r res =
    elim (Option-cases (compare_line (fresh (length res.discrepancies)) p l r)) [
      | inl e ↦
          let n = length-append res.matched (record { line = l; rec = r } ∷ []) in
          rw (e, settle_line) (omega (arith, n), refl, refl, refl)
      | inr (d, e) ↦ rw (e, settle_line) (OneMore-add d res (compare_line-kind _ p l r e))
    ]

match_line-OneMore :
    (fresh : ℕ → Uuid) (p : String) (idx : Index) (l : SettlementLine) (s : Scan)
    → OneMore s.res (match_line fresh p idx l s).res
unfolding match_line
match_line-OneMore fresh p idx l s = elim (Bool-cases (contains (line_key l) s.consumed)) [
  | inl e ↦ rw e (OneMore-missing _ p l _ s.res)
  | inr e ↦ rw e (elim (Option-cases (lookup key_eq (line_key l) idx)) [
    | inl none_found ↦ rw none_found (OneMore-missing _ p l _ s.res)
    | inr (r, one_found) ↦ rw one_found (settle_line-OneMore fresh p l r s.res)
  ])
]

scan_line-OneMore :
    (fresh : ℕ → Uuid) (p : String) (idx : Index) (l : SettlementLine) (s : Scan)
    → OneMore s.res (scan_line fresh p idx l s).res
unfolding scan_line
scan_line-OneMore fresh p idx l s = elim (Bool-cases (matchable l.line_type)) [
  | inl e ↦ rw e (match_line-OneMore fresh p idx l _)
  | inr e ↦ rw e (omega arith, refl, refl, refl)
]

pub scan_lines-found :
    (fresh : ℕ → Uuid) (p : String) (idx : Index) (ls : List SettlementLine) (s : Scan)
    → (found (scan_lines fresh p idx ls s).res ≡ length ls + found s.res)
      × (absences (scan_lines fresh p idx ls s).res ≡ absences s.res)
      × ((scan_lines fresh p idx ls s).res.total_lines ≡ s.res.total_lines)
unfolding scan_lines
scan_lines-found fresh p idx [] s = (omega arith, refl, refl)
scan_lines-found fresh p idx (l ∷ ls) s =
    let (n, k, t, _) = scan_line-OneMore fresh p idx l s in
    let (n', k', t') = scan_lines-found fresh p idx ls (scan_line fresh p idx l s) in
    (omega (arith, n, n'), k' ∙ k, t' ∙ t)

miss_record-absences :
    (fresh : ℕ → Uuid) (p : String) (now grace : Time) (r : PaymentRecord) (res : MatchResult)
    → let res' = miss_record fresh p now grace r res in
      (found res' + absences res ≡ found res + absences res') × (res'.total_lines ≡ res.total_lines)
unfolding miss_record new_record_discrepancy
miss_record-absences fresh p now grace r res = elim (Bool-cases (in_grace now grace r)) [
  | inl e ↦ rw e (omega arith, refl)
  | inr e ↦
      let d =
        new_record_discrepancy (fresh (length res.discrepancies)) DiscrepancyKind.missing_in_psp p
          r in
      let n = length-append res.discrepancies (d ∷ []) in
      let k = countp-append is_absence res.discrepancies (d ∷ []) in
      rw e (omega (arith, n, k), refl)
]

scan_records-absences :
    (fresh : ℕ → Uuid) (i : MatchInput) (now : Time) (consumed seen : List MatchKey)
    (rs : List PaymentRecord) (res : MatchResult)
    → let res' = scan_records fresh i now consumed seen rs res in
      (found res' + absences res ≡ found res + absences res') × (res'.total_lines ≡ res.total_lines)
unfolding scan_records
scan_records-absences fresh i now consumed seen [] res = (omega arith, refl)
scan_records-absences fresh i now consumed seen (r ∷ rs) res =
    elim (Bool-cases (passed_over consumed seen r)) [
      | inl e ↦ rw (e, scan_records) (scan_records-absences fresh i now consumed seen rs res)
      | inr e ↦
          let res' = miss_record fresh i.provider now i.grace_period r res in
          let (n, t) = miss_record-absences fresh i.provider now i.grace_period r res in
          let (n', t') = scan_records-absences fresh i now consumed (record_key r ∷ seen) rs res' in
          rw (e, scan_records) (omega (arith, n, n'), t' ∙ t)
    ]

match_lines-found :
    (fresh : ℕ → Uuid) (wall_clock : Time) (i : MatchInput)
    → let res = match_lines fresh wall_clock i in
      (found res ≡ length i.lines + absences res) × (res.total_lines ≡ length i.lines)
unfolding match_lines
match_lines-found fresh wall_clock i =
    let idx = index_records i.provider i.records [] in
    let s = scan_lines fresh i.provider idx i.lines (start_scan i.lines) in
    let (n, k, t) = scan_lines-found fresh i.provider idx i.lines (start_scan i.lines) in
    let (n', t') = scan_records-absences fresh i _ s.consumed [] i.records s.res in
    (omega (arith, n, k, n'), t' ∙ t)

counter-count_kinds :
    (k : DiscrepancyKind) (ds : List Discrepancy) (m : List (DiscrepancyKind × ℕ))
    → counter kind_eq k (count_kinds ds m) ≡ countp (λ d. kind_eq d.kind k) ds + counter kind_eq k m
unfolding count_kinds
counter-count_kinds k [] m = omega arith
counter-count_kinds k (d ∷ ds) m =
    let rest = counter-count_kinds k ds (insert kind_eq d.kind (counter kind_eq d.kind m + 1) m) in
    let one = counter-insert kind_eq kind_eq_iff k d.kind (counter kind_eq d.kind m + 1) m in
    ground (arith, rest, one, kind_eq_iff d.kind k)

-- When a run is completed with the result of `Match`, its summary accounts for every line of the
-- file: the pairs that agree, the skipped lines and the discrepancies that are not of a record
-- without a line (`missing_in_psp`) are together as many as the lines, and the run's own counters
-- are those of the summary.
pub complete-accounts :
    (fresh : ℕ → Uuid) (wall_clock now : Time) (i : MatchInput) (r : Run)
    → (complete (match_lines fresh wall_clock i) now r).0 ≡ ok tt
    → let r' = (complete (match_lines fresh wall_clock i) now r).1 in
      (r'.summary.matched + r'.summary.skipped + r'.summary.unmatched
        ≡ length i.lines + counter kind_eq DiscrepancyKind.missing_in_psp r'.summary.by_kind)
      × (r'.summary.total_lines ≡ length i.lines)
      × (r'.matched_count ≡ r'.summary.matched)
      × (r'.unmatched_count ≡ r'.summary.unmatched)
      × (is_completed r'.status ≡ true)
unfolding complete summarize
complete-accounts fresh wall_clock now i r h =
    let res = match_lines fresh wall_clock i in
    let (n, t) = match_lines-found fresh wall_clock i in
    let k = counter-count_kinds DiscrepancyKind.missing_in_psp res.discrepancies [] in
    elim (Bool-cases (not (is_running r.status) && not (is_pending r.status))) [
      | inl e ↦ absurd (ground (arith, h, e))
      | inr e ↦ rw e (omega (arith, n, k), t, refl, refl, refl)
    ]
