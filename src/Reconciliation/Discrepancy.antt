-- ===== src/Reconciliation/Discrepancy.antt =====
-- internal/reconciliation/domain/discrepancy.go and errors.go: the differences that a run finds, and
-- how an operator closes them. The parser of raw UUIDs is a third party's and an argument.
use payment_gateway.Base.{
  ℕ, ◌+◌, ◌*◌, ◌/◌, String, Bool, true, false, Option, none, some, List, [], ◌∷◌, ◌&&◌, not, any,
  text_eq, if◌then◌else◌,
}
use payment_gateway.Base.Action.{Result, ok, err}
use payment_gateway.Base.Ascii.{trim_space, has_prefix}
use payment_gateway.Base.Clock.{Time, second}
use payment_gateway.Base.Dict.{lookup, insert}
use payment_gateway.Base.Int.{ℤ}
use payment_gateway.Base.Method.{Method, raise_if, get, modify, ◌>>=◌, ◌>>◌}
use payment_gateway.Ids.{Uuid, nil_uuid, format, parse_with_prefix}
use payment_gateway.Reconciliation.Settlement.{LineType, SettlementLine}

-- The errors of errors.go and those of the application, by their code.
pub data ReconError : Type 0 where
  unknown_format empty_file parse_error invalid_period invalid_transition : ReconError
  resolution_note_required resolved_by_required : ReconError
  run_not_found discrepancy_not_found file_not_found duplicate_file : ReconError
  concurrent_modification parameter_missing parameter_invalid poison_message : ReconError

pub data DiscrepancyKind : Type 0 where
  missing_in_ledger missing_in_psp amount_mismatch status_mismatch fee_mismatch : DiscrepancyKind
  other : DiscrepancyKind

abbrev pub kind_eq : DiscrepancyKind → DiscrepancyKind → Bool
kind_eq DiscrepancyKind.missing_in_ledger DiscrepancyKind.missing_in_ledger = true
kind_eq DiscrepancyKind.missing_in_psp DiscrepancyKind.missing_in_psp = true
kind_eq DiscrepancyKind.amount_mismatch DiscrepancyKind.amount_mismatch = true
kind_eq DiscrepancyKind.status_mismatch DiscrepancyKind.status_mismatch = true
kind_eq DiscrepancyKind.fee_mismatch DiscrepancyKind.fee_mismatch = true
kind_eq DiscrepancyKind.other DiscrepancyKind.other = true
kind_eq _ _ = false

-- `AllDiscrepancyKinds`
abbrev pub all_discrepancy_kinds : List DiscrepancyKind
all_discrepancy_kinds =
    DiscrepancyKind.missing_in_ledger ∷ DiscrepancyKind.missing_in_psp
    ∷ DiscrepancyKind.amount_mismatch ∷ DiscrepancyKind.status_mismatch
    ∷ DiscrepancyKind.fee_mismatch ∷ []

-- `IsValid`
abbrev pub is_valid_kind : DiscrepancyKind → Bool
is_valid_kind k = any (λ v. kind_eq v k) all_discrepancy_kinds

pub data DiscrepancyStatus : Type 0 where
  open_status resolved ignored : DiscrepancyStatus

abbrev pub is_open_status : DiscrepancyStatus → Bool
is_open_status open_status = true
is_open_status resolved = false
is_open_status ignored = false

-- The snapshot of a line that `snapshotOf` puts into the details.
pub record Snapshot : Type 0 where
  pub line_no : ℕ
  pub line_type : LineType
  pub provider_reference : String
  pub amount_minor : ℤ
  pub fee_minor : ℤ
  pub currency : String
  pub settled_at : Time

-- The values that the details hold: `any` with the types that the code stores.
pub data Detail : Type 0 where
  text : String → Detail
  number : ℤ → Detail
  line : Snapshot → Detail

abbrev pub Details : Type 0
Details = List (String × Detail)

pub record Discrepancy : Type 0 where
  pub id : Uuid
  pub run_id : Uuid
  pub merchant_id : Option Uuid
  pub kind : DiscrepancyKind
  pub provider : String
  pub provider_reference : String
  pub internal_reference : String
  pub settlement_line_id : Option Uuid
  pub expected_amount : Option ℤ
  pub actual_amount : Option ℤ
  pub currency : String
  pub status : DiscrepancyStatus
  pub resolution_note : String
  pub resolved_by : String
  pub resolved_at : Option Time
  pub details : Details
  pub created_at : Time
  pub updated_at : Time
  pub version : ℕ

-- `PublicID`
abbrev pub public_id : Discrepancy → String
public_id d = format "dsc" d.id

-- `ParseDiscrepancyID`
unfoldable pub parse_discrepancy_id : (String → Option Uuid) → String → Result ReconError Uuid
parse_discrepancy_id parse_uuid s =
    if has_prefix s "dsc_"
    then elim (parse_with_prefix s "dsc") [ ok u ↦ ok u | err _ ↦ err discrepancy_not_found ]
    else elim (parse_uuid s) [ some u ↦ ok u | none ↦ err discrepancy_not_found ]

-- `Detail`: the text under a key, and "" where there is none.
abbrev pub detail_text : Option Detail → String
detail_text (some (text s)) = s
detail_text _ = ""

abbrev pub detail : String → Discrepancy → String
detail key d = detail_text (lookup text_eq key d.details)

-- `setDetail`
abbrev pub set_detail : String → Detail → Discrepancy → Discrepancy
set_detail key v d = record d { details = insert text_eq key v d.details }

-- `close`
unfoldable pub close :
    DiscrepancyStatus → String → String → Time → Bool → Method Discrepancy ReconError (Unit {0})
close to note by now note_required = do
  raise_if (text_eq (trim_space by) "") resolved_by_required
  raise_if (note_required && text_eq (trim_space note) "") resolution_note_required
  d ← get
  raise_if (not (is_open_status d.status)) invalid_transition
  modify (λ d. record d {
    status = to;
    resolution_note = note;
    resolved_by = by;
    resolved_at = some now;
    updated_at = now;
    version = d.version + 1;
  })

-- `Resolve`
unfoldable pub resolve : String → String → Time → Method Discrepancy ReconError (Unit {0})
unfolding close
resolve note by now = close resolved note by now false

-- `Ignore`
unfoldable pub ignore : String → String → Time → Method Discrepancy ReconError (Unit {0})
unfolding close
ignore note by now = close ignored note by now true

-- `IsOpen`
abbrev pub is_open : Discrepancy → Bool
is_open d = is_open_status d.status

-- `snapshotOf`: the text of the time has no fraction of a second.
abbrev pub snapshot_of : SettlementLine → Snapshot
snapshot_of l = record {
  line_no = l.line_no;
  line_type = l.line_type;
  provider_reference = l.provider_reference;
  amount_minor = l.amount.amount_minor;
  fee_minor = l.fee.amount_minor;
  currency = l.amount.currency;
  settled_at = l.settled_at / second * second;
}

abbrev line_of_snapshot : Discrepancy → Snapshot → SettlementLine
line_of_snapshot d s = record {
  id = elim d.settlement_line_id [ some u ↦ u | none ↦ nil_uuid ];
  file_id = nil_uuid;
  line_no = s.line_no;
  provider = d.provider;
  provider_reference = s.provider_reference;
  merchant_reference = "";
  line_type = s.line_type;
  amount = record { amount_minor = s.amount_minor; currency = s.currency };
  fee = record { amount_minor = s.fee_minor; currency = s.currency };
  settled_at = s.settled_at;
  raw = [];
  created_at = 0;
}

abbrev line_of_detail : Discrepancy → Option Detail → Option SettlementLine
line_of_detail d (some (line s)) = some (line_of_snapshot d s)
line_of_detail d _ = none

-- `LineSnapshot`
unfoldable pub line_snapshot : Discrepancy → Option SettlementLine
line_snapshot d = line_of_detail d (lookup text_eq "line" d.details)
