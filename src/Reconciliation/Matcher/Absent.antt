-- ===== src/Reconciliation/Matcher/Absent.antt =====
-- `Match` of internal/reconciliation/domain/matcher.go: the records that are missed in the file.
use payment_gateway.Base.{
  ◌≡◌, refl, sym, ap, subst, ◌∙◌, arith, ℕ, ◌+◌, String, Bool, true, false, Option, some, none,
  List, [], ◌∷◌, length, any, find, find-skip, find-take, countp, countp-append, countp_mono,
  Bool-cases, Option-cases, is_some, inl, inr, not, ◌&&◌, ◌||◌, ◌==◌, text_eq, if◌then◌else◌,
}
use mathlib.Core.Bool.{or_assoc}
use payment_gateway.Base.Bags.{lookup-insert}
use payment_gateway.Base.Clock.{Time}
use payment_gateway.Base.Dict.{lookup, insert}
use payment_gateway.Ids.{Uuid}
use payment_gateway.Reconciliation.Settlement.{
  LineType, SettlementLine, MatchKey, key_eq, line_key, matchable, type_eq,
}
use payment_gateway.Reconciliation.Record.{
  PaymentRecord, RecordKind, record_key, is_settleable, settles, kind_text, record_kind_for_line,
  kind_line_type,
}
use payment_gateway.Reconciliation.Discrepancy.{Discrepancy, DiscrepancyKind, kind_eq, detail}
use payment_gateway.Reconciliation.Matcher.{
  MatchInput, MatchResult, Scan, Index, contains, match_line, scan_line, scan_lines, start_scan,
  scan_records, miss_record, match_lines, index_records, passed_over, in_grace, is_foreign,
  is_newer, new_record_discrepancy,
}
use payment_gateway.Reconciliation.Matcher.Made.{key_eq_iff}
use payment_gateway.Reconciliation.Matcher.Accounts.{is_absence, scan_lines-found}

or_false : (b : Bool) → b ≡ (b || false)
or_false b = ground arith

or_true : (b : Bool) → true ≡ (b || true)
or_true b = ground arith

gather : (c a b f : Bool) → ((c || (a && f)) || (b && f)) ≡ (c || ((a || b) && f))
gather c a b f = ground arith

-- The text of the kind of record that a type of line settles.
abbrev line_kind_text : LineType → String
line_kind_text t = elim (record_kind_for_line t) [ some k ↦ kind_text k | none ↦ "" ]

-- Among the kinds that are settled, the texts tell the types apart.
kind_text-type :
    (kind : RecordKind) (t : LineType) (status : String)
    → settles kind status ≡ true
    → text_eq (kind_text kind) (line_kind_text t) ≡ type_eq (kind_line_type kind) t
unfolding settles
kind_text-type RecordKind.payment LineType.payment status h = refl
kind_text-type RecordKind.payment LineType.refund status h = refl
kind_text-type RecordKind.payment LineType.chargeback status h = refl
kind_text-type RecordKind.payment LineType.fee status h = refl
kind_text-type RecordKind.payment LineType.adjustment status h = refl
kind_text-type RecordKind.payment LineType.other status h = refl
kind_text-type RecordKind.refund LineType.payment status h = refl
kind_text-type RecordKind.refund LineType.refund status h = refl
kind_text-type RecordKind.refund LineType.chargeback status h = refl
kind_text-type RecordKind.refund LineType.fee status h = refl
kind_text-type RecordKind.refund LineType.adjustment status h = refl
kind_text-type RecordKind.refund LineType.other status h = refl
kind_text-type RecordKind.dispute LineType.payment status h = refl
kind_text-type RecordKind.dispute LineType.refund status h = refl
kind_text-type RecordKind.dispute LineType.chargeback status h = refl
kind_text-type RecordKind.dispute LineType.fee status h = refl
kind_text-type RecordKind.dispute LineType.adjustment status h = refl
kind_text-type RecordKind.dispute LineType.other status h = refl
kind_text-type RecordKind.other t status h = absurd (ground (arith, h))

settles_of :
    (consumed seen : List MatchKey) (r : PaymentRecord)
    → passed_over consumed seen r ≡ false
    → is_settleable r ≡ true
unfolding passed_over
settles_of consumed seen r h = ground (arith, h)

module _ (k : MatchKey) where
  abbrev names : PaymentRecord → Bool
  names r = key_eq (record_key r) k

  -- Whether a line of the file takes part under the key.
  abbrev pub listed : List SettlementLine → Bool
  listed ls = any (λ l. matchable l.line_type && key_eq (line_key l) k) ls

  -- Whether a record that is not another provider's has the key.
  abbrev pub on_record : String → List PaymentRecord → Bool
  on_record p rs = any (λ r. not (is_foreign p r) && names r) rs

  -- The first record under the key that is due to be settled.
  abbrev pub due : List PaymentRecord → Option PaymentRecord
  due rs = find (λ r. is_settleable r && names r) rs

  -- Whether a discrepancy says that the record under the key is missed.
  abbrev pub reports : Discrepancy → Bool
  reports d =
      kind_eq d.kind DiscrepancyKind.missing_in_psp
      && (text_eq d.provider_reference k.provider_reference
          && text_eq (detail "record_kind" d) (line_kind_text k.line_type))

  -- What one round of the loop that builds the index adds.
  indexed_round :
      (p : String) (r : PaymentRecord) (m : Index)
      → is_some (
          lookup key_eq k (
            if not (is_foreign p r) && is_newer (lookup key_eq (record_key r) m) r
            then insert key_eq (record_key r) r m
            else m))
        ≡ (is_some (lookup key_eq k m) || (not (is_foreign p r) && names r))
  indexed_round p r m =
      let put = lookup-insert key_eq key_eq_iff k (record_key r) r m in
      elim (Bool-cases (is_foreign p r)) [
        | inl e ↦ rw e (ground arith)
        | inr e ↦ rw e (elim (Option-cases (lookup key_eq (record_key r) m)) [
          | inl f ↦ rw (f, put) (ground arith)
          | inr (c, f) ↦
              let same : names r ≡ true → lookup key_eq k m ≡ some c = λ q.
                subst (λ x. lookup key_eq x m ≡ some c) ((key_eq_iff (record_key r) k).0 q) f in
              elim (Bool-cases (names r)) [
                | inl q ↦ let held = same q in ground (arith, f, put, q, held)
                | inr q ↦ ground (arith, f, put, q)
              ]
        ])
      ]

  index_records-on_record :
      (p : String) (rs : List PaymentRecord) (m : Index)
      → is_some (lookup key_eq k (index_records p rs m))
        ≡ (is_some (lookup key_eq k m) || on_record p rs)
  unfolding index_records
  index_records-on_record p [] m = ground arith
  index_records-on_record p (r ∷ rs) m =
      let m' =
        if not (is_foreign p r) && is_newer (lookup key_eq (record_key r) m) r
        then insert key_eq (record_key r) r m
        else m in
      let rest = index_records-on_record p rs m' in
      let round = indexed_round p r m in
      rw rest (
        rw round (
          or_assoc (is_some (lookup key_eq k m)) (not (is_foreign p r) && names r)
            (on_record p rs)))

  -- The keys that the loop over the lines takes.
  match_line-consumed :
      (fresh : ℕ → Uuid) (p : String) (idx : Index) (l : SettlementLine) (s : Scan)
      → contains k (match_line fresh p idx l s).consumed
        ≡ (contains k s.consumed || (key_eq (line_key l) k && is_some (lookup key_eq k idx)))
  unfolding match_line
  match_line-consumed fresh p idx l s =
      let same = λ (q : key_eq (line_key l) k ≡ true). (key_eq_iff (line_key l) k).0 q in
      elim (Bool-cases (contains (line_key l) s.consumed)) [
        | inl e ↦
            let held = λ (q : key_eq (line_key l) k ≡ true).
              subst (λ x. contains x s.consumed ≡ true) (same q) e in
            elim (Bool-cases (key_eq (line_key l) k)) [
              | inl q ↦ let h = held q in rw (e, q, h) refl
              | inr q ↦ rw (e, q) (or_false (contains k s.consumed))
            ]
        | inr e ↦ elim (Option-cases (lookup key_eq (line_key l) idx)) [
          | inl f ↦
              let held = λ (q : key_eq (line_key l) k ≡ true).
                subst (λ x. lookup key_eq x idx ≡ none) (same q) f in
              elim (Bool-cases (key_eq (line_key l) k)) [
                | inl q ↦ let h = held q in rw (e, f, q, h) (or_false (contains k s.consumed))
                | inr q ↦ rw (e, f, q) (or_false (contains k s.consumed))
              ]
          | inr (r, f) ↦
              let held = λ (q : key_eq (line_key l) k ≡ true).
                subst (λ x. lookup key_eq x idx ≡ some r) (same q) f in
              elim (Bool-cases (key_eq (line_key l) k)) [
                | inl q ↦ let h = held q in rw (e, f, q, h) (or_true (contains k s.consumed))
                | inr q ↦ rw (e, f, q) (or_false (contains k s.consumed))
              ]
        ]
      ]

  scan_line-consumed :
      (fresh : ℕ → Uuid) (p : String) (idx : Index) (l : SettlementLine) (s : Scan)
      → contains k (scan_line fresh p idx l s).consumed ≡ (
          contains k s.consumed
          || ((matchable l.line_type && key_eq (line_key l) k) && is_some (lookup key_eq k idx)))
  unfolding scan_line
  scan_line-consumed fresh p idx l s = elim (Bool-cases (matchable l.line_type)) [
    | inl e ↦ rw (e, scan_line) (match_line-consumed fresh p idx l _)
    | inr e ↦ rw (e, scan_line) (or_false (contains k s.consumed))
  ]

  scan_lines-consumed :
      (fresh : ℕ → Uuid) (p : String) (idx : Index) (ls : List SettlementLine) (s : Scan)
      → contains k (scan_lines fresh p idx ls s).consumed
        ≡ (contains k s.consumed || (listed ls && is_some (lookup key_eq k idx)))
  unfolding scan_lines
  scan_lines-consumed fresh p idx [] s = or_false (contains k s.consumed)
  scan_lines-consumed fresh p idx (l ∷ ls) s =
      scan_lines-consumed fresh p idx ls (scan_line fresh p idx l s)
      ∙ ap (λ b. b || (listed ls && is_some (lookup key_eq k idx)))
          (scan_line-consumed fresh p idx l s)
      ∙ gather (contains k s.consumed) (matchable l.line_type && key_eq (line_key l) k) (listed ls)
          (is_some (lookup key_eq k idx))

  -- A new discrepancy of a record reports the record's own key.
  reports-new :
      (id : Uuid) (p : String) (r : PaymentRecord)
      → is_settleable r ≡ true
      → reports (new_record_discrepancy id DiscrepancyKind.missing_in_psp p r) ≡ names r
  unfolding new_record_discrepancy is_settleable
  reports-new id p r h =
      ap (λ b. text_eq r.provider_reference k.provider_reference && b)
        (kind_text-type r.kind k.line_type r.status h)

  -- How many reports the first due record makes.
  abbrev pub report_of : Time → Time → Option PaymentRecord → ℕ
  report_of now grace none = 0
  report_of now grace (some r) = if in_grace now grace r then 0 else 1

  miss_record-reports :
      (fresh : ℕ → Uuid) (p : String) (now grace : Time) (r : PaymentRecord) (res : MatchResult)
      → is_settleable r ≡ true
      → countp reports (miss_record fresh p now grace r res).discrepancies
        ≡ countp reports res.discrepancies + (if names r then report_of now grace (some r) else 0)
  unfolding miss_record
  miss_record-reports fresh p now grace r res h =
      let d =
        new_record_discrepancy (fresh (length res.discrepancies)) DiscrepancyKind.missing_in_psp p
          r in
      let more = countp-append reports res.discrepancies (d ∷ []) in
      let own = reports-new (fresh (length res.discrepancies)) p r h in
      elim (Bool-cases (in_grace now grace r)) [
        | inl e ↦ rw (e, miss_record) (ground arith)
        | inr e ↦ rw (e, miss_record) (rw own at more ∙ ground arith)
      ]

  passed_over-none :
      (now grace : Time) (consumed seen : List MatchKey) (r : PaymentRecord)
      (rs : List PaymentRecord)
      → passed_over consumed seen r ≡ true
      → (if contains k consumed || contains k seen then 0 else report_of now grace (due rs))
        ≡ (if contains k consumed || contains k seen then 0 else report_of now grace (due (r ∷ rs)))
  unfolding passed_over
  passed_over-none now grace consumed seen r rs h = elim (Bool-cases (is_settleable r && names r)) [
    | inr e ↦
        ap (λ o. if contains k consumed || contains k seen then 0 else report_of now grace o)
          (sym (find-skip (λ r. is_settleable r && names r) r rs e))
    | inl e ↦
        let same : record_key r ≡ k = (key_eq_iff (record_key r) k).0 (ground (arith, e)) in
        let held : (contains k consumed || contains k seen) ≡ true =
          subst (λ x. (contains x consumed || contains x seen) ≡ true) same
            (ground (arith, h, e)) in
        rw held refl
  ]

  -- The round of a record that is not passed over.
  reported_round :
      (now grace : Time) (consumed seen : List MatchKey) (r : PaymentRecord)
      (rs : List PaymentRecord)
      → passed_over consumed seen r ≡ false
      → (if names r then report_of now grace (some r) else 0)
          + (if contains k consumed || contains k (record_key r ∷ seen)
              then 0
              else report_of now grace (due rs))
        ≡ (if contains k consumed || contains k seen then 0 else report_of now grace (due (r ∷ rs)))
  unfolding passed_over
  reported_round now grace consumed seen r rs h = elim (Bool-cases (names r)) [
    | inl q ↦
        let free : (contains k consumed || contains k seen) ≡ false =
          subst (λ x. (contains x consumed || contains x seen) ≡ false)
            ((key_eq_iff (record_key r) k).0 q) (ground (arith, h)) in
        let taken : (contains k consumed || contains k (record_key r ∷ seen)) ≡ true =
          ground (arith, q) in
        let one = find-take (λ r. is_settleable r && names r) r rs (ground (arith, h, q)) in
        rw (taken, free, one, q) (omega arith)
    | inr q ↦
        let skip = find-skip (λ r. is_settleable r && names r) r rs (ground (arith, q)) in
        rw (q, skip) (omega arith)
  ]

  scan_records-reports :
      (fresh : ℕ → Uuid) (i : MatchInput) (now : Time) (consumed seen : List MatchKey)
      (rs : List PaymentRecord) (res : MatchResult)
      → countp reports (scan_records fresh i now consumed seen rs res).discrepancies
        ≡ countp reports res.discrepancies
          + (if contains k consumed || contains k seen
              then 0
              else report_of now i.grace_period (due rs))
  unfolding scan_records
  scan_records-reports fresh i now consumed seen [] res = ground arith
  scan_records-reports fresh i now consumed seen (r ∷ rs) res =
      elim (Bool-cases (passed_over consumed seen r)) [
        | inl e ↦
            let rest = scan_records-reports fresh i now consumed seen rs res in
            rw (e, scan_records)
              (rest
                ∙ ap (λ n. countp reports res.discrepancies + n)
                    (passed_over-none now i.grace_period consumed seen r rs e))
        | inr e ↦
            let res' = miss_record fresh i.provider now i.grace_period r res in
            let rest = scan_records-reports fresh i now consumed (record_key r ∷ seen) rs res' in
            let round = reported_round now i.grace_period consumed seen r rs e in
            let one =
              miss_record-reports fresh i.provider now i.grace_period r res
                (settles_of consumed seen r e) in
            rw (e, scan_records) (omega (arith, rest, one, round))
      ]

-- The time that `Match` works with.
abbrev pub match_time : Time → MatchInput → Time
match_time wall_clock i = if i.now == 0 then wall_clock else i.now

-- For every reference and type: if a line of the file that takes part has it and a record that is
-- not another provider's has it too, no record of it is reported as missing in the file. Otherwise
-- exactly one is reported if the first record of it that is due to be settled is past the grace
-- period, and none if that record is still in the period or there is no such record.
pub match_lines-reports :
    (fresh : ℕ → Uuid) (wall_clock : Time) (i : MatchInput) (k : MatchKey)
    → countp (reports k) (match_lines fresh wall_clock i).discrepancies ≡ (
        if listed k i.lines && on_record k i.provider i.records
        then 0
        else report_of k (match_time wall_clock i) i.grace_period (due k i.records))
unfolding match_lines
match_lines-reports fresh wall_clock i k =
    let now = match_time wall_clock i in
    let idx = index_records i.provider i.records [] in
    let s = scan_lines fresh i.provider idx i.lines (start_scan i.lines) in
    let (_, no_absence, _) = scan_lines-found fresh i.provider idx i.lines (start_scan i.lines) in
    let few = countp_mono (reports k) is_absence (λ d h. ground (arith, h)) s.res.discrepancies in
    let last = scan_records-reports k fresh i now s.consumed [] i.records s.res in
    let taken : contains k s.consumed ≡ (listed k i.lines && on_record k i.provider i.records) =
      scan_lines-consumed k fresh i.provider idx i.lines (start_scan i.lines)
      ∙ ap (λ b. listed k i.lines && b) (index_records-on_record k i.provider i.records []) in
    let none_yet : countp (reports k) s.res.discrepancies ≡ 0 = omega (arith, few, no_absence) in
    last ∙ rw (← or_false (contains k s.consumed)) (rw (taken, none_yet) (omega arith))
