-- ===== src/Reconciliation/Matcher.antt =====
-- internal/reconciliation/domain/matcher.go: a settlement file's lines against the records, by
-- (provider reference, type). `fresh n` is the id that the n-th new discrepancy gets.
pub mod Made
pub mod Accounts
pub mod Sums
pub mod Absent
pub mod Pairs
use payment_gateway.Base.{
  ℕ, suc, ◌+◌, String, Bool, true, false, Option, none, some, List, [], ◌∷◌, ◌++◌, ◌&&◌, ◌||◌, not,
  any, length, ltb, leb, ◌==◌, text_eq, concat, if◌then◌else◌,
}
use payment_gateway.Base.Ascii.{print_int}
use payment_gateway.Base.Clock.{Time}
use payment_gateway.Base.Dict.{lookup, insert}
use payment_gateway.Base.Int.{ℤ, pos, eqb_ℤ, add64}
use payment_gateway.Ids.{Uuid, nil_uuid}
use payment_gateway.Money.{Money}
use payment_gateway.Reconciliation.Settlement.{
  LineType, SettlementLine, MatchKey, key_eq, line_key, matchable,
}
use payment_gateway.Reconciliation.Record.{PaymentRecord, is_settleable, record_key, kind_text}
use payment_gateway.Reconciliation.Discrepancy.{
  Discrepancy, DiscrepancyKind, open_status, Detail, text, number, line, Details, snapshot_of,
  set_detail, detail,
}

pub record MatchInput : Type 0 where
  pub provider : String
  pub lines : List SettlementLine
  pub records : List PaymentRecord
  pub now : Time
  pub grace_period : Time

pub record MatchedPair : Type 0 where
  pub line : SettlementLine
  pub rec : PaymentRecord

abbrev pub Sums : Type 0
Sums = List (String × ℤ)

pub record Totals : Type 0 where
  pub settled : Sums
  pub fees : Sums
  pub refunds : Sums
  pub chargebacks : Sums

pub record MatchResult : Type 0 where
  pub total_lines : ℕ
  pub matched : List MatchedPair
  pub discrepancies : List Discrepancy
  pub skipped : ℕ
  pub deferred : ℕ
  pub totals : Totals

-- `m[cur] += x`: a missing key reads as 0.
abbrev pub sum_or_zero : Option ℤ → ℤ
sum_or_zero (some x) = x
sum_or_zero none = pos 0

abbrev pub sum_of : String → Sums → ℤ
sum_of cur m = sum_or_zero (lookup text_eq cur m)

abbrev pub add_to : String → ℤ → Sums → Sums
add_to cur x m = insert text_eq cur (add64 (sum_of cur m) x) m

-- The `switch` of `accumulate`.
unfoldable pub accumulate_amount : LineType → String → ℤ → Totals → Totals
accumulate_amount LineType.payment cur x t = record t { settled = add_to cur x t.settled }
accumulate_amount LineType.refund cur x t = record t { refunds = add_to cur x t.refunds }
accumulate_amount LineType.chargeback cur x t = record t {
  chargebacks = add_to cur x t.chargebacks;
}
accumulate_amount LineType.fee cur x t = record t { fees = add_to cur x t.fees }
accumulate_amount LineType.adjustment cur x t = t
accumulate_amount LineType.other cur x t = t

-- The `if` behind it.
unfoldable pub accumulate_fee : String → ℤ → Totals → Totals
accumulate_fee cur x t =
    if not (eqb_ℤ x (pos 0)) then record t { fees = add_to cur x t.fees } else t

-- `accumulate`
unfoldable pub accumulate : SettlementLine → Totals → Totals
unfolding accumulate_amount accumulate_fee
accumulate l t =
    accumulate_fee l.amount.currency l.fee.amount_minor
      (accumulate_amount l.line_type l.amount.currency l.amount.amount_minor t)

-- `deref`
abbrev deref : Option ℤ → ℤ
deref (some x) = x
deref none = pos 0

abbrev join : List String → String
join [] = ""
join (s ∷ ss) = concat s (join ss)

-- `describe`
abbrev describe_kind : DiscrepancyKind → Discrepancy → String
describe_kind DiscrepancyKind.missing_in_ledger d =
    if text_eq (detail "reason" d) "duplicate_in_settlement"
    then join (
        "provider reference " ∷ d.provider_reference
        ∷ " appears more than once in the settlement file" ∷ [])
    else join (
        "settlement file contains " ∷ d.provider_reference ∷ " but no internal record was found"
        ∷ [])
describe_kind DiscrepancyKind.missing_in_psp d = join (
    "internal record " ∷ d.internal_reference ∷ " (" ∷ d.provider_reference
    ∷ ") is settleable but absent from the settlement file" ∷ [])
describe_kind DiscrepancyKind.amount_mismatch d =
    if text_eq (detail "reason" d) "currency_mismatch"
    then join (
        "currency differs for "
        ∷ d.provider_reference
        ∷ ": internal "
        ∷ detail "expected_currency" d
        ∷ " vs settlement "
        ∷ d.currency
        ∷ [])
    else join (
        "amount differs for "
        ∷ d.provider_reference
        ∷ ": internal "
        ∷ print_int (deref d.expected_amount)
        ∷ " vs settlement "
        ∷ print_int (deref d.actual_amount)
        ∷ " "
        ∷ d.currency
        ∷ [])
describe_kind DiscrepancyKind.status_mismatch d = join (
    "internal record "
    ∷ d.internal_reference
    ∷ " is "
    ∷ detail "expected_status" d
    ∷ " but the settlement file shows it as settled"
    ∷ [])
describe_kind DiscrepancyKind.fee_mismatch d = join (
    "fee differs for "
    ∷ d.provider_reference
    ∷ ": internal "
    ∷ print_int (deref d.expected_amount)
    ∷ " vs settlement "
    ∷ print_int (deref d.actual_amount)
    ∷ " "
    ∷ d.currency
    ∷ [])
describe_kind DiscrepancyKind.other d = ""

unfoldable pub describe : Discrepancy → String
describe d = describe_kind d.kind d

-- A UUID that is not nil, as a pointer.
abbrev pub known_uuid : Uuid → Option Uuid
known_uuid u = if u == nil_uuid then none else some u

-- What `newLineDiscrepancy` takes from the record.
abbrev add_record : SettlementLine → Option PaymentRecord → Discrepancy → Discrepancy
add_record l none d = d
add_record l (some rec) d =
    let d' = set_detail "record_kind" (text (kind_text rec.kind)) (record d {
      expected_amount = some rec.amount.amount_minor;
      internal_reference = rec.public_id;
      merchant_id = known_uuid rec.merchant_id;
    }) in
    if not (text_eq rec.amount.currency "") && not (text_eq rec.amount.currency l.amount.currency)
    then set_detail "expected_currency" (text rec.amount.currency) d'
    else d'

abbrev set_details : Details → Discrepancy → Discrepancy
set_details [] d = d
set_details ((k, v) ∷ more) d = set_details more (set_detail k v d)

-- `newLineDiscrepancy`
unfoldable pub new_line_discrepancy :
    Uuid → DiscrepancyKind → String → SettlementLine → Option PaymentRecord → Details → Discrepancy
unfolding describe
new_line_discrepancy id kind provider l rec details =
    let d : Discrepancy = record {
      id = id;
      run_id = nil_uuid;
      merchant_id = none;
      kind = kind;
      provider = provider;
      provider_reference = l.provider_reference;
      internal_reference = "";
      settlement_line_id = known_uuid l.id;
      expected_amount = none;
      actual_amount = some l.amount.amount_minor;
      currency = l.amount.currency;
      status = open_status;
      resolution_note = "";
      resolved_by = "";
      resolved_at = none;
      details = ("line", line (snapshot_of l)) ∷ [];
      created_at = 0;
      updated_at = 0;
      version = 0;
    } in
    let d' = set_details details (add_record l rec d) in
    set_detail "description" (text (describe d')) d'

-- `newRecordDiscrepancy`
unfoldable pub new_record_discrepancy :
    Uuid → DiscrepancyKind → String → PaymentRecord → Discrepancy
unfolding describe
new_record_discrepancy id kind provider rec =
    let d : Discrepancy = record {
      id = id;
      run_id = nil_uuid;
      merchant_id = known_uuid rec.merchant_id;
      kind = kind;
      provider = provider;
      provider_reference = rec.provider_reference;
      internal_reference = rec.public_id;
      settlement_line_id = none;
      expected_amount = some rec.amount.amount_minor;
      actual_amount = none;
      currency = rec.amount.currency;
      status = open_status;
      resolution_note = "";
      resolved_by = "";
      resolved_at = none;
      details =
          ("record_kind", text (kind_text rec.kind)) ∷ ("expected_status", text rec.status) ∷ [];
      created_at = 0;
      updated_at = 0;
      version = 0;
    } in
    set_detail "description" (text (describe d)) d

-- A known fee in the line's currency that is another amount.
abbrev pub fee_differs : Option Money → Money → Bool
fee_differs none actual = false
fee_differs (some fee) actual =
    text_eq fee.currency actual.currency && not (eqb_ℤ fee.amount_minor actual.amount_minor)

abbrev fee_amount : Option Money → ℤ
fee_amount (some fee) = fee.amount_minor
fee_amount none = pos 0

-- `compare`: the difference between a line and its record, if there is one.
unfoldable pub compare_line : Uuid → String → SettlementLine → PaymentRecord → Option Discrepancy
compare_line id provider l rec =
    if not (is_settleable rec)
    then some (
        new_line_discrepancy id DiscrepancyKind.status_mismatch provider l (some rec)
          (("expected_status", text rec.status) ∷ ("actual_status", text "settled") ∷ []))
    else if not (text_eq l.amount.currency rec.amount.currency)
    then some (
        new_line_discrepancy id DiscrepancyKind.amount_mismatch provider l (some rec)
          (("reason", text "currency_mismatch") ∷ []))
    else if not (eqb_ℤ l.amount.amount_minor rec.amount.amount_minor)
    then some (new_line_discrepancy id DiscrepancyKind.amount_mismatch provider l (some rec) [])
    else if fee_differs rec.fee l.fee
    then (let d = new_line_discrepancy id DiscrepancyKind.fee_mismatch provider l (some rec) (
          ("expected_fee", number (fee_amount rec.fee))
          ∷ ("actual_fee", number l.fee.amount_minor)
          ∷ []) in
        some (record d {
          expected_amount = some (fee_amount rec.fee);
          actual_amount = some l.fee.amount_minor;
        }))
    else none

abbrev pub Index : Type 0
Index = List (MatchKey × PaymentRecord)

-- Whether a record is left out of the index: no reference, or another provider's.
abbrev pub is_foreign : String → PaymentRecord → Bool
is_foreign provider r =
    text_eq r.provider_reference ""
    || (not (text_eq r.provider "")
        && not (text_eq provider "")
        && not (text_eq r.provider provider))

-- Whether a record takes the place of the one under its key.
abbrev pub is_newer : Option PaymentRecord → PaymentRecord → Bool
is_newer none r = true
is_newer (some cur) r = leb cur.source_seq r.source_seq

-- The loop that builds the index.
unfoldable pub index_records : String → List PaymentRecord → Index → Index
index_records provider [] m = m
index_records provider (r ∷ rs) m = index_records provider rs (
    if not (is_foreign provider r) && is_newer (lookup key_eq (record_key r) m) r
    then insert key_eq (record_key r) r m
    else m)

abbrev pub contains : MatchKey → List MatchKey → Bool
contains k ks = any (λ j. key_eq j k) ks

-- The keys that a line has taken, and what has been found.
pub record Scan : Type 0 where
  pub consumed : List MatchKey
  pub res : MatchResult

abbrev pub add_discrepancy : Discrepancy → MatchResult → MatchResult
add_discrepancy d res = record res { discrepancies = res.discrepancies ++ d ∷ [] }

-- The rest of the loop's body for a line whose record has been found.
unfoldable pub settle_line :
    (ℕ → Uuid) → String → SettlementLine → PaymentRecord → MatchResult → MatchResult
settle_line fresh provider l rec res =
    elim (compare_line (fresh (length res.discrepancies)) provider l rec) [
      | some d ↦ add_discrepancy d res
      | none ↦ record res { matched = res.matched ++ (record { line = l; rec = rec }) ∷ [] }
    ]

-- The loop's body for a line that takes part.
unfoldable pub match_line : (ℕ → Uuid) → String → Index → SettlementLine → Scan → Scan
match_line fresh provider idx l s =
    let id = fresh (length s.res.discrepancies) in
    if contains (line_key l) s.consumed
    then record s {
      res =
          add_discrepancy
            (new_line_discrepancy id DiscrepancyKind.missing_in_ledger provider l none
              (("reason", text "duplicate_in_settlement") ∷ []))
            s.res;
    }
    else elim (lookup key_eq (line_key l) idx) [
      | none ↦ record s {
        res =
            add_discrepancy
              (new_line_discrepancy id DiscrepancyKind.missing_in_ledger provider l none []) s.res;
      }
      | some rec ↦ record {
        consumed = line_key l ∷ s.consumed;
        res = settle_line fresh provider l rec s.res;
      }
    ]

-- The loop's body.
unfoldable pub scan_line : (ℕ → Uuid) → String → Index → SettlementLine → Scan → Scan
scan_line fresh provider idx l s =
    let s' : Scan = record s { res = record s.res { totals = accumulate l s.res.totals } } in
    if not (matchable l.line_type)
    then record s' { res = record s'.res { skipped = s'.res.skipped + 1 } }
    else match_line fresh provider idx l s'

-- The loop over the lines.
unfoldable pub scan_lines : (ℕ → Uuid) → String → Index → List SettlementLine → Scan → Scan
scan_lines fresh provider idx [] s = s
scan_lines fresh provider idx (l ∷ ls) s =
    scan_lines fresh provider idx ls (scan_line fresh provider idx l s)

-- Whether a record is too young to be missed.
abbrev pub in_grace : Time → Time → PaymentRecord → Bool
in_grace now grace r = ltb 0 grace && ltb now (r.occurred_at + grace)

-- Whether the loop over the records passes one over: the keys that it has seen are `seen`.
unfoldable pub passed_over : List MatchKey → List MatchKey → PaymentRecord → Bool
passed_over consumed seen r =
    not (is_settleable r) || (contains (record_key r) consumed || contains (record_key r) seen)

unfoldable pub miss_record :
    (ℕ → Uuid) → String → Time → Time → PaymentRecord → MatchResult → MatchResult
miss_record fresh provider now grace r res =
    if in_grace now grace r
    then record res { deferred = res.deferred + 1 }
    else add_discrepancy
        (new_record_discrepancy (fresh (length res.discrepancies)) DiscrepancyKind.missing_in_psp
          provider r)
        res

-- The loop over the records.
unfoldable pub scan_records :
    (ℕ → Uuid)
    → MatchInput
    → Time
    → List MatchKey
    → List MatchKey
    → List PaymentRecord
    → MatchResult
    → MatchResult
scan_records fresh i now consumed seen [] res = res
scan_records fresh i now consumed seen (r ∷ rs) res =
    scan_records fresh i now consumed
      (if passed_over consumed seen r then seen else record_key r ∷ seen) rs
      (if passed_over consumed seen r
        then res
        else miss_record fresh i.provider now i.grace_period r res)

abbrev pub no_totals : Totals
no_totals = record { settled = []; fees = []; refunds = []; chargebacks = [] }

abbrev pub start_scan : List SettlementLine → Scan
start_scan ls = record {
  consumed = [];
  res = record {
    total_lines = length ls;
    matched = [];
    discrepancies = [];
    skipped = 0;
    deferred = 0;
    totals = no_totals;
  };
}

-- `Match`; `wall_clock` is what `time.Now` returns, for an input without a time.
unfoldable pub match_lines : (ℕ → Uuid) → Time → MatchInput → MatchResult
match_lines fresh wall_clock i =
    let now = if i.now == 0 then wall_clock else i.now in
    let idx = index_records i.provider i.records [] in
    let s = scan_lines fresh i.provider idx i.lines (start_scan i.lines) in
    scan_records fresh i now s.consumed [] i.records s.res
