-- ===== src/Ledger/Journal.antt =====
-- internal/ledger/domain/journal.go: entries, journals, and the check of the ledger's invariants.
pub mod Sound
pub mod Validate
use payment_gateway.Base.{
  ℕ, String, Bool, true, false, Option, none, some, List, [], ◌∷◌, ◌==◌, ◌&&◌, ◌||◌, not, ltb,
  length, text_eq, bool_eq, if◌then◌else◌, any,
}
use payment_gateway.Base.Action.{Result, ok, err, map_err, fail_if, ◌>>=◌, ◌>>◌}
use payment_gateway.Base.Int.{ℤ, pos, ltb_ℤ, eqb_ℤ, add64, sub64, neg64, max_int64}
use payment_gateway.Base.Clock.{Time}
use payment_gateway.Ids.{Uuid, nil_uuid}
use payment_gateway.Money.{Money, validate as validate_money, is_positive}
use payment_gateway.Ledger.Account.{AccountKey, kind_of_key, validate_key, is_system}
use payment_gateway.Ledger.Chart.{
  NormalBalance, Kind, chart, normal_balance_of, LedgerError, event_id_missing,
  reference_type_invalid, journal_too_few_entries, entry_direction_invalid, invalid_currency,
  entry_amount_invalid, journal_currency_mismatch, account_livemode_mismatch,
  account_merchant_mismatch, journal_unbalanced,
}

-- A string that is neither constant is `other`.
pub data Direction : Type 0 where
  debit credit : Direction
  other : String → Direction

-- `Direction.Valid`
abbrev pub is_valid_direction : Direction → Bool
is_valid_direction Direction.debit = true
is_valid_direction Direction.credit = true
is_valid_direction (Direction.other _) = false

-- `Direction.Opposite`
abbrev pub opposite : Direction → Direction
opposite Direction.debit = Direction.credit
opposite _ = Direction.debit

abbrev pub is_debit : Direction → Bool
is_debit Direction.debit = true
is_debit _ = false

abbrev pub direction_eq : Direction → Direction → Bool
direction_eq Direction.debit Direction.debit = true
direction_eq Direction.credit Direction.credit = true
direction_eq (Direction.other s) (Direction.other t) = text_eq s t
direction_eq _ _ = false

pub data ReferenceType : Type 0 where
  payment refund dispute fee settlement adjustment reversal : ReferenceType
  other : String → ReferenceType

-- `ReferenceType.Valid`
abbrev pub is_valid_reference : ReferenceType → Bool
is_valid_reference (ReferenceType.other _) = false
is_valid_reference _ = true

pub data SourceType : Type 0 where
  payment_event reconciliation_adjustment manual_adjustment reversal payout : SourceType

pub record Entry : Type 0 where
  pub id : Uuid
  pub account_id : Uuid
  pub account : AccountKey
  pub direction : Direction
  pub amount : Money
  pub description : String
  pub created_at : Time

pub record Journal : Type 0 where
  pub id : Uuid
  pub public_id : String
  pub event_id : Uuid
  pub merchant_id : Uuid
  pub livemode : Bool
  pub source_type : SourceType
  pub source_id : String
  pub reference_type : ReferenceType
  pub reference_id : String
  pub description : String
  pub template : String
  pub reversal_of : Option Uuid
  pub reversed_by : Option Uuid
  pub effective_at : Time
  pub posted_at : Time
  pub metadata : List (String × String)
  pub entries : List Entry

-- `Journal.Currency`
abbrev pub currency_of : List Entry → String
currency_of [] = ""
currency_of (e ∷ es) = e.amount.currency

-- `Journal.total`
pub total_of : Direction → ℤ → List Entry → ℤ
total_of dir sum [] = sum
total_of dir sum (e ∷ es) =
    total_of dir (if direction_eq e.direction dir then add64 sum e.amount.amount_minor else sum) es

-- `TotalDebit` and `TotalCredit`
unfoldable pub total_debit : Journal → ℤ
unfolding total_of
total_debit j = total_of Direction.debit (pos 0) j.entries

unfoldable pub total_credit : Journal → ℤ
unfolding total_of
total_credit j = total_of Direction.credit (pos 0) j.entries

-- The tests that `Journal.Validate` makes of one entry.
unfoldable pub check_entry : Journal → String → Entry → Result LedgerError (Unit {0})
check_entry j currency e = do
  fail_if (not (is_valid_direction e.direction)) entry_direction_invalid
  map_err (λ _. invalid_currency) (validate_money e.amount)
  fail_if (not (is_positive e.amount)) entry_amount_invalid
  fail_if (not (text_eq e.amount.currency currency)) journal_currency_mismatch
  validate_key e.account
  fail_if (not (text_eq e.account.currency currency)) journal_currency_mismatch
  fail_if (not (bool_eq e.account.livemode j.livemode)) account_livemode_mismatch
  fail_if
      (not (is_system e.account)
        && not (j.merchant_id == nil_uuid)
        && not (e.account.merchant_id == j.merchant_id))
      account_merchant_mismatch

-- A running total of `Journal.Validate`, with the test against overflow.
unfoldable pub accumulate : ℤ → ℤ → Result LedgerError ℤ
accumulate sum amount =
    if ltb_ℤ (sub64 max_int64 amount) sum then err entry_amount_invalid else ok (add64 sum amount)

-- The loop of `Journal.Validate`, on the two running totals.
pub validate_entries : Journal → String → ℤ → ℤ → List Entry → Result LedgerError (ℤ × ℤ)
unfolding check_entry accumulate
validate_entries j currency debits credits [] = ok (debits, credits)
validate_entries j currency debits credits (e ∷ es) = do
  check_entry j currency e
  debits' ← if is_debit e.direction then accumulate debits e.amount.amount_minor else ok debits
  credits' ← if is_debit e.direction then ok credits else accumulate credits e.amount.amount_minor
  validate_entries j currency debits' credits' es

-- `Journal.Validate`
unfoldable pub validate : Journal → Result LedgerError (Unit {0})
unfolding validate_entries
validate j = do
  fail_if (j.event_id == nil_uuid) event_id_missing
  fail_if (not (is_valid_reference j.reference_type)) reference_type_invalid
  fail_if (ltb (length j.entries) 2) journal_too_few_entries
  (debits, credits) ← validate_entries j (currency_of j.entries) (pos 0) (pos 0) j.entries
  fail_if (not (eqb_ℤ debits credits)) journal_unbalanced
