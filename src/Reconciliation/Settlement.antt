-- ===== src/Reconciliation/Settlement.antt =====
-- internal/reconciliation/domain/settlement.go: settlement files and their lines.
use payment_gateway.Base.{ℕ, String, Bool, true, false, Option, none, some, List, [], ◌&&◌, text_eq}
use payment_gateway.Base.Action.{ok, err}
use payment_gateway.Base.Clock.{Time}
use payment_gateway.Ids.{Uuid}
use payment_gateway.Money.{Money, zero_of}
use payment_gateway.Money as Money

pub data LineType : Type 0 where
  payment refund chargeback fee adjustment other : LineType

-- The text of a constant; what is not a constant has no text that the code relies on.
abbrev pub line_type_text : LineType → String
line_type_text LineType.payment = "payment"
line_type_text LineType.refund = "refund"
line_type_text LineType.chargeback = "chargeback"
line_type_text LineType.fee = "fee"
line_type_text LineType.adjustment = "adjustment"
line_type_text LineType.other = ""

-- `IsValid`
abbrev pub is_valid_type : LineType → Bool
is_valid_type LineType.other = false
is_valid_type _ = true

-- `Matchable`
abbrev pub matchable : LineType → Bool
matchable LineType.payment = true
matchable LineType.refund = true
matchable LineType.chargeback = true
matchable LineType.fee = false
matchable LineType.adjustment = false
matchable LineType.other = false

-- `==` on line types.
abbrev pub type_eq : LineType → LineType → Bool
type_eq LineType.payment LineType.payment = true
type_eq LineType.refund LineType.refund = true
type_eq LineType.chargeback LineType.chargeback = true
type_eq LineType.fee LineType.fee = true
type_eq LineType.adjustment LineType.adjustment = true
type_eq LineType.other LineType.other = true
type_eq _ _ = false

pub data FileStatus : Type 0 where
  pending importing imported failed : FileStatus

pub record SettlementFile : Type 0 where
  pub id : Uuid
  pub provider : String
  pub file_name : String
  pub file_hash : String
  pub storage_uri : String
  pub period_start : Option Time
  pub period_end : Option Time
  pub row_count : ℕ
  pub status : FileStatus
  pub error : String
  pub imported_at : Option Time
  pub metadata : List (String × String)
  pub created_at : Time
  pub updated_at : Time
  pub version : ℕ

-- `NewSettlementFile`, under a fresh id.
unfoldable pub new_settlement_file :
    Uuid → String → String → String → Option Time → Option Time → Time → SettlementFile
new_settlement_file id provider file_name file_hash period_start period_end now = record {
  id = id;
  provider = provider;
  file_name = file_name;
  file_hash = file_hash;
  storage_uri = "";
  period_start = period_start;
  period_end = period_end;
  row_count = 0;
  status = FileStatus.importing;
  error = "";
  imported_at = none;
  metadata = [];
  created_at = now;
  updated_at = now;
  version = 0;
}

-- `MarkImporting`
unfoldable pub mark_importing : Time → SettlementFile → SettlementFile
mark_importing now f = record f { status = FileStatus.importing; error = ""; updated_at = now }

-- `MarkImported`
unfoldable pub mark_imported : ℕ → Time → SettlementFile → SettlementFile
mark_imported row_count now f = record f {
  status = FileStatus.imported;
  row_count = row_count;
  error = "";
  imported_at = some now;
  updated_at = now;
}

-- `MarkFailed`
unfoldable pub mark_failed : String → Time → SettlementFile → SettlementFile
mark_failed reason now f = record f { status = FileStatus.failed; error = reason; updated_at = now }

pub record SettlementLine : Type 0 where
  pub id : Uuid
  pub file_id : Uuid
  pub line_no : ℕ
  pub provider : String
  pub provider_reference : String
  pub merchant_reference : String
  pub line_type : LineType
  pub amount : Money
  pub fee : Money
  pub settled_at : Time
  pub raw : List (String × String)
  pub created_at : Time

-- `Net`: no error leaves it, the amount is then zero.
unfoldable pub net : SettlementLine → Money
net l = elim (Money.sub l.amount l.fee) [ ok m ↦ m | err _ ↦ zero_of l.amount.currency ]

pub record MatchKey : Type 0 where
  pub provider_reference : String
  pub line_type : LineType

-- `==` on keys, which are the keys of maps.
abbrev pub key_eq : MatchKey → MatchKey → Bool
key_eq a b = text_eq a.provider_reference b.provider_reference && type_eq a.line_type b.line_type

-- `SettlementLine.Key`
abbrev pub line_key : SettlementLine → MatchKey
line_key l = record { provider_reference = l.provider_reference; line_type = l.line_type }
