-- ===== src/Ledger/Chart.antt =====
-- internal/ledger/domain/account.go and errors.go: the chart of accounts and the codes of accounts.
use Prim.Native.Char.{code as char_code}
use payment_gateway.Base.{
  ℕ, String, Bool, true, false, Option, none, some, List, [], ◌∷◌, ◌==◌, ◌&&◌, ◌||◌, not, leb, map,
  all, length, codes, text_eq, cut, concat, find, if◌then◌else◌,
}
use payment_gateway.Base.Action.{Result, ok, err}

-- The errors of errors.go, by name; the messages are left out.
pub data LedgerError : Type 0 where
  journal_unbalanced journal_too_few_entries journal_currency_mismatch : LedgerError
  entry_amount_invalid entry_direction_invalid invalid_account_code invalid_currency : LedgerError
  account_merchant_mismatch account_livemode_mismatch journal_not_found : LedgerError
  journal_already_reversed reversal_mismatch event_id_missing reference_type_invalid : LedgerError
  fee_exceeds_amount event_invalid no_template money_overflow : LedgerError

pub data AccountType : Type 0 where
  asset liability revenue expense : AccountType

pub data NormalBalance : Type 0 where
  normal_debit normal_credit : NormalBalance

-- `AccountType.NormalBalance`
abbrev pub normal_balance_of : AccountType → NormalBalance
normal_balance_of AccountType.asset = NormalBalance.normal_debit
normal_balance_of AccountType.expense = NormalBalance.normal_debit
normal_balance_of AccountType.liability = NormalBalance.normal_credit
normal_balance_of AccountType.revenue = NormalBalance.normal_credit

pub data AccountStatus : Type 0 where
  active frozen closed : AccountStatus

pub data Level : Type 0 where
  system merchant : Level

pub data Kind : Type 0 where
  psp_receivable bank_cash settlement_suspense merchant_payable refund_clearing : Kind
  chargeback_reserve fee_revenue chargeback_fee_revenue psp_fee_expense : Kind
  chargeback_fee_expense : Kind

-- The strings of the constants.
abbrev pub kind_text : Kind → String
kind_text Kind.psp_receivable = "psp_receivable"
kind_text Kind.bank_cash = "bank_cash"
kind_text Kind.settlement_suspense = "settlement_suspense"
kind_text Kind.merchant_payable = "merchant_payable"
kind_text Kind.refund_clearing = "refund_clearing"
kind_text Kind.chargeback_reserve = "chargeback_reserve"
kind_text Kind.fee_revenue = "fee_revenue"
kind_text Kind.chargeback_fee_revenue = "chargeback_fee_revenue"
kind_text Kind.psp_fee_expense = "psp_fee_expense"
kind_text Kind.chargeback_fee_expense = "chargeback_fee_expense"

pub record KindSpec : Type 0 where
  pub kind : Kind
  pub ledger_code : String
  pub account_type : AccountType
  pub level : Level
  pub qualified : Bool
  pub name : String

abbrev spec : Kind → String → AccountType → Level → Bool → String → KindSpec
spec k c t l q n = record {
  kind = k;
  ledger_code = c;
  account_type = t;
  level = l;
  qualified = q;
  name = n;
}

-- `chart`
abbrev pub chart : Kind → KindSpec
chart Kind.psp_receivable =
    spec Kind.psp_receivable "1100" AccountType.asset Level.system true "PSP receivable"
chart Kind.bank_cash = spec Kind.bank_cash "1200" AccountType.asset Level.system true "Bank cash"
chart Kind.settlement_suspense =
    spec Kind.settlement_suspense "1900" AccountType.asset Level.system true "Settlement suspense"
chart Kind.merchant_payable =
    spec Kind.merchant_payable "2100" AccountType.liability Level.merchant false "Merchant payable"
chart Kind.refund_clearing =
    spec Kind.refund_clearing "2200" AccountType.liability Level.merchant false "Refund clearing"
chart Kind.chargeback_reserve =
    spec Kind.chargeback_reserve "2300" AccountType.liability Level.merchant false
      "Chargeback reserve"
chart Kind.fee_revenue =
    spec Kind.fee_revenue "4100" AccountType.revenue Level.system false "Fee revenue"
chart Kind.chargeback_fee_revenue =
    spec Kind.chargeback_fee_revenue "4200" AccountType.revenue Level.system false
      "Chargeback fee revenue"
chart Kind.psp_fee_expense =
    spec Kind.psp_fee_expense "5100" AccountType.expense Level.system true "PSP fee expense"
chart Kind.chargeback_fee_expense =
    spec Kind.chargeback_fee_expense "5200" AccountType.expense Level.system true
      "Chargeback fee expense"

-- `chartOrder`
abbrev pub chart_order : List Kind
chart_order =
    Kind.psp_receivable ∷ Kind.bank_cash ∷ Kind.settlement_suspense ∷ Kind.merchant_payable
    ∷ Kind.refund_clearing ∷ Kind.chargeback_reserve ∷ Kind.fee_revenue
    ∷ Kind.chargeback_fee_revenue ∷ Kind.psp_fee_expense ∷ Kind.chargeback_fee_expense ∷ []

-- `ChartOfAccounts`
abbrev pub chart_of_accounts : List KindSpec
chart_of_accounts = map chart chart_order

-- The kind that a text names, if the chart has one.
abbrev pub kind_of_text : String → Option Kind
kind_of_text s = find (λ k. text_eq (kind_text k) s) chart_order

abbrev is_alnum : ℕ → Bool
is_alnum c = (leb b'a' c && leb c b'z') || (leb b'0' c && leb c b'9')

-- `qualifierRe`: ^[a-z0-9][a-z0-9_-]{0,63}$
unfoldable pub is_qualifier : String → Bool
is_qualifier String.[] = false
is_qualifier (String.◌∷◌ c s) =
    is_alnum (char_code c)
    && all (λ x. is_alnum x || x == b'_' || x == b'-') (codes s)
    && leb (length (codes s)) 63

-- `ParseCode`, from the kind that the part before the first colon names.
abbrev pub parse_qualifier : Option Kind → String → Bool → Result LedgerError (Kind × String)
parse_qualifier none qualifier has_qualifier = err invalid_account_code
parse_qualifier (some k) qualifier has_qualifier =
    if (chart k).qualified
    then if not has_qualifier || not (is_qualifier qualifier)
      then err invalid_account_code
      else ok (k, qualifier)
    else if has_qualifier
    then err invalid_account_code
    else ok (k, "")

-- `ParseCode`
unfoldable pub parse_code : String → Result LedgerError (Kind × String)
parse_code code =
    let (kind_str, qualifier, has_qualifier) = cut b':' code in
    parse_qualifier (kind_of_text kind_str) qualifier has_qualifier

-- `CodeFor`
unfoldable pub code_for : Kind → String → Result LedgerError String
code_for k qualifier =
    if (chart k).qualified
    then if not (is_qualifier qualifier)
      then err invalid_account_code
      else ok (concat (kind_text k) (concat ":" qualifier))
    else if not (text_eq qualifier "")
    then err invalid_account_code
    else ok (kind_text k)

-- `StorageCode`
unfoldable pub storage_code : String → Bool → String
storage_code code livemode = if livemode then code else concat "test:" code

-- `strings.CutPrefix`
abbrev pub cut_prefix : String → String → Option String
cut_prefix s String.[] = some s
cut_prefix String.[] (String.◌∷◌ d p) = none
cut_prefix (String.◌∷◌ c s) (String.◌∷◌ d p) =
    let rest = cut_prefix s p in if char_code c == char_code d then rest else none

-- `ParseStorageCode`
unfoldable pub parse_storage_code : String → String × Bool
parse_storage_code stored = elim (cut_prefix stored "test:") [
  | some rest ↦ (rest, false)
  | none ↦ (stored, true)
]
