-- ===== src/Ledger/Account.antt =====
-- internal/ledger/domain/account.go: the natural key of an account, and the account itself.
pub mod Codes
use payment_gateway.Ledger.Chart.{
  AccountStatus, AccountType, Kind, KindSpec, LedgerError, Level, NormalBalance,
  account_livemode_mismatch, account_merchant_mismatch, active, asset, bank_cash,
  chargeback_fee_expense, chargeback_fee_revenue, chargeback_reserve, chart, chart_of_accounts,
  chart_order, closed, code_for, cut_prefix, entry_amount_invalid, entry_direction_invalid,
  event_id_missing, event_invalid, expense, fee_exceeds_amount, fee_revenue, frozen,
  invalid_account_code, invalid_currency, is_qualifier, journal_already_reversed,
  journal_currency_mismatch, journal_not_found, journal_too_few_entries, journal_unbalanced,
  kind_of_text, kind_text, liability, merchant, merchant_payable, money_overflow, no_template,
  normal_balance_of, normal_credit, normal_debit, parse_code, parse_qualifier, parse_storage_code,
  psp_fee_expense, psp_receivable, reference_type_invalid, refund_clearing, revenue,
  reversal_mismatch, settlement_suspense, storage_code, system,
}
use Prim.Native.Char.{code as char_code}
use Prim.Native.String
use payment_gateway.Base.{
  ℕ, String, Bool, true, false, Option, none, some, List, [], ◌∷◌, ◌==◌, ◌&&◌, ◌||◌, not, leb, ltb,
  map, all, length, codes, text_eq, bool_eq, cut, concat, find, if◌then◌else◌,
}
use payment_gateway.Base.Action.{Result, ok, err, fail_if, ◌>>=◌, ◌>>◌}
use payment_gateway.Base.Int.{ℤ, neg64}
use payment_gateway.Base.Clock.{Time}
use payment_gateway.Ids.{Uuid, nil_uuid}
use payment_gateway.Money.Currency.{is_supported_currency}

pub record AccountKey : Type 0 where
  pub merchant_id : Uuid
  pub code : String
  pub currency : String
  pub livemode : Bool

-- `AccountKey.IsSystem`
abbrev pub is_system : AccountKey → Bool
is_system k = k.merchant_id == nil_uuid

-- `AccountKey.Kind`; `none` is the empty kind of an illegal code.
unfoldable pub kind_of_key : AccountKey → Option Kind
unfolding parse_code
kind_of_key k = elim (parse_code k.code) [ ok (kind, _) ↦ some kind | err _ ↦ none ]

abbrev level_fits : Level → Bool → Bool
level_fits Level.system is_sys = is_sys
level_fits Level.merchant is_sys = not is_sys

-- `AccountKey.Validate`
unfoldable pub validate_key : AccountKey → Result LedgerError (Unit {0})
validate_key k = do
  (kind, _) ← parse_code k.code
  fail_if (not (level_fits (chart kind).level (is_system k))) invalid_account_code
  fail_if (not (is_supported_currency k.currency)) invalid_currency

abbrev system_key : String → String → Bool → AccountKey
system_key code currency livemode = record {
  merchant_id = nil_uuid;
  code = code;
  currency = currency;
  livemode = livemode;
}

abbrev merchant_key : Kind → Uuid → String → Bool → AccountKey
merchant_key kind merchant_id currency livemode = record {
  merchant_id = merchant_id;
  code = kind_text kind;
  currency = currency;
  livemode = livemode;
}

abbrev qualified_key : Kind → String → String → Bool → AccountKey
qualified_key kind qualifier currency livemode =
    system_key (concat (kind_text kind) (concat ":" qualifier)) currency livemode

-- `PSPReceivable`
abbrev pub psp_receivable_key : String → String → Bool → AccountKey
psp_receivable_key provider currency livemode =
    qualified_key Kind.psp_receivable provider currency livemode

-- `BankCash`
abbrev pub bank_cash_key : String → String → Bool → AccountKey
bank_cash_key bank_account currency livemode =
    qualified_key Kind.bank_cash bank_account currency livemode

-- `SettlementSuspense`
abbrev pub settlement_suspense_key : String → String → Bool → AccountKey
settlement_suspense_key provider currency livemode =
    qualified_key Kind.settlement_suspense provider currency livemode

-- `PSPFeeExpense`
abbrev pub psp_fee_expense_key : String → String → Bool → AccountKey
psp_fee_expense_key provider currency livemode =
    qualified_key Kind.psp_fee_expense provider currency livemode

-- `ChargebackFeeExpense`
abbrev pub chargeback_fee_expense_key : String → String → Bool → AccountKey
chargeback_fee_expense_key provider currency livemode =
    qualified_key Kind.chargeback_fee_expense provider currency livemode

-- `FeeRevenue`
abbrev pub fee_revenue_key : String → Bool → AccountKey
fee_revenue_key currency livemode = system_key (kind_text Kind.fee_revenue) currency livemode

-- `ChargebackFeeRevenue`
abbrev pub chargeback_fee_revenue_key : String → Bool → AccountKey
chargeback_fee_revenue_key currency livemode =
    system_key (kind_text Kind.chargeback_fee_revenue) currency livemode

-- `MerchantPayable`
abbrev pub merchant_payable_key : Uuid → String → Bool → AccountKey
merchant_payable_key merchant_id currency livemode =
    merchant_key Kind.merchant_payable merchant_id currency livemode

-- `RefundClearing`
abbrev pub refund_clearing_key : Uuid → String → Bool → AccountKey
refund_clearing_key merchant_id currency livemode =
    merchant_key Kind.refund_clearing merchant_id currency livemode

-- `ChargebackReserve`
abbrev pub chargeback_reserve_key : Uuid → String → Bool → AccountKey
chargeback_reserve_key merchant_id currency livemode =
    merchant_key Kind.chargeback_reserve merchant_id currency livemode

pub record Account : Type 0 where
  pub id : Uuid
  pub key : AccountKey
  pub name : String
  pub account_type : AccountType
  pub normal_balance : NormalBalance
  pub status : AccountStatus
  pub metadata : List (String × String)
  pub version : ℕ
  pub created_at : Time
  pub updated_at : Time

-- `DefaultAccountName`; `uuid_text` prints a UUID.
unfoldable pub default_account_name : (Uuid → String) → AccountKey → String
default_account_name uuid_text key =
    let owner = if not (is_system key) then uuid_text key.merchant_id else "platform" in
    let name = concat key.code (concat "/" (concat key.currency (concat "/" owner))) in
    if not key.livemode then concat name " (test)" else name

-- `NewAccount`, from the kind of a key that was found valid.
abbrev new_account_of : (Uuid → String) → AccountKey → Option Kind → Result LedgerError Account
new_account_of uuid_text key none = err invalid_account_code
new_account_of uuid_text key (some kind) = ok (record {
  id = nil_uuid;
  key = key;
  name = default_account_name uuid_text key;
  account_type = (chart kind).account_type;
  normal_balance = normal_balance_of (chart kind).account_type;
  status = AccountStatus.active;
  metadata = [];
  version = 0;
  created_at = 0;
  updated_at = 0;
})

-- `NewAccount`
unfoldable pub new_account : (Uuid → String) → AccountKey → Result LedgerError Account
unfolding validate_key kind_of_key
new_account uuid_text key = do validate_key key; new_account_of uuid_text key (kind_of_key key)

-- `AccountStatus` and `Account.CanPost`
abbrev pub can_post : Account → Bool
can_post a = elim a.status [ AccountStatus.active ↦ true | _ ↦ false ]

-- `==` on keys, as a Go map compares them.
unfoldable pub key_eq : AccountKey → AccountKey → Bool
key_eq a b =
    a.merchant_id == b.merchant_id
    && text_eq a.code b.code
    && text_eq a.currency b.currency
    && bool_eq a.livemode b.livemode
