-- ===== src/Reconciliation/Matcher/Made.antt =====
-- What the discrepancies that matcher.go makes hold, and equality of keys and kinds.
use payment_gateway.Base.{
  ◌≡◌, refl, ◌∙◌, ◌↔◌, arith, String, true, false, Option, some, none, [], ◌∷◌, text_eq_iff,
}
use payment_gateway.Ids.{Uuid}
use payment_gateway.Reconciliation.Settlement.{LineType, SettlementLine, MatchKey, type_eq, key_eq}
use payment_gateway.Reconciliation.Record.{PaymentRecord}
use payment_gateway.Reconciliation.Discrepancy.{
  Discrepancy, DiscrepancyKind, Details, text, number, kind_eq,
}
use payment_gateway.Reconciliation.Matcher.{
  add_record, set_details, new_line_discrepancy, compare_line, fee_amount,
}

pub type_eq_iff : (a b : LineType) → (type_eq a b ≡ true) ↔ (a ≡ b)
type_eq_iff LineType.payment b = ground arith
type_eq_iff LineType.refund b = ground arith
type_eq_iff LineType.chargeback b = ground arith
type_eq_iff LineType.fee b = ground arith
type_eq_iff LineType.adjustment b = ground arith
type_eq_iff LineType.other b = ground arith

pub key_eq_iff : (a b : MatchKey) → (key_eq a b ≡ true) ↔ (a ≡ b)
key_eq_iff a b = ground (
  arith,
  text_eq_iff a.provider_reference b.provider_reference,
  type_eq_iff a.line_type b.line_type,
)

pub kind_eq_iff : (a b : DiscrepancyKind) → (kind_eq a b ≡ true) ↔ (a ≡ b)
kind_eq_iff DiscrepancyKind.missing_in_ledger b = ground arith
kind_eq_iff DiscrepancyKind.missing_in_psp b = ground arith
kind_eq_iff DiscrepancyKind.amount_mismatch b = ground arith
kind_eq_iff DiscrepancyKind.status_mismatch b = ground arith
kind_eq_iff DiscrepancyKind.fee_mismatch b = ground arith
kind_eq_iff DiscrepancyKind.other b = ground arith

set_details-kind : (ds : Details) (d : Discrepancy) → (set_details ds d).kind ≡ d.kind
set_details-kind [] d = refl
set_details-kind ((k, v) ∷ ds) d = set_details-kind ds _

add_record-kind :
    (l : SettlementLine) (r : Option PaymentRecord) (d : Discrepancy)
    → (add_record l r d).kind ≡ d.kind
add_record-kind l none d = refl
add_record-kind l (some r) d = ground arith

-- A new discrepancy of a line is of the kind that was asked for.
pub new_line_discrepancy-kind :
    (id : Uuid) (k : DiscrepancyKind) (p : String) (l : SettlementLine) (r : Option PaymentRecord)
    (ds : Details)
    → (new_line_discrepancy id k p l r ds).kind ≡ k
unfolding new_line_discrepancy
new_line_discrepancy-kind id k p l r ds = set_details-kind ds _ ∙ add_record-kind l r _

-- What the comparison of a line with its record finds is no absence.
pub compare_line-kind :
    (id : Uuid) (p : String) (l : SettlementLine) (r : PaymentRecord) {d : Discrepancy}
    → compare_line id p l r ≡ some d
    → kind_eq d.kind DiscrepancyKind.missing_in_psp ≡ false
unfolding compare_line
compare_line-kind id p l r h = ground (
  arith,
  new_line_discrepancy-kind id DiscrepancyKind.status_mismatch p l (some r)
      (("expected_status", text r.status) ∷ ("actual_status", text "settled") ∷ []),
  new_line_discrepancy-kind id DiscrepancyKind.amount_mismatch p l (some r)
      (("reason", text "currency_mismatch") ∷ []),
  new_line_discrepancy-kind id DiscrepancyKind.amount_mismatch p l (some r) [],
  new_line_discrepancy-kind id DiscrepancyKind.fee_mismatch p l (some r) (
      ("expected_fee", number (fee_amount r.fee)) ∷ ("actual_fee", number l.fee.amount_minor) ∷ []),
)
