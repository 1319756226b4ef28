-- ===== src/Ledger/Balances.antt =====
-- internal/ledger/domain/balances.go: balances in memory, and the trial balance.
pub mod Undo
use payment_gateway.Base.{
  String, Bool, false, Option, none, some, List, [], ◌∷◌, ◌&&◌, text_eq, concat, if◌then◌else◌, all,
}
use payment_gateway.Base.Action.{Result, ok, err}
use payment_gateway.Base.Dict.{lookup, insert}
use payment_gateway.Base.Int.{ℤ, pos, add64, sub64, neg64, eqb_ℤ}
use payment_gateway.Ledger.Account.{AccountKey, key_eq, kind_of_key}
use payment_gateway.Ledger.Chart.{
  Kind, chart, AccountType, NormalBalance, normal_balance_of, LedgerError,
}
use payment_gateway.Ledger.Journal.{Journal, Entry, Direction, validate}

-- `Balances`
abbrev pub Balances : Type 0
Balances = List (AccountKey × ℤ)

-- `signedDelta`
abbrev pub signed_delta : NormalBalance → Direction → ℤ → ℤ
signed_delta NormalBalance.normal_debit Direction.debit amount = amount
signed_delta NormalBalance.normal_credit Direction.credit amount = amount
signed_delta _ _ amount = neg64 amount

-- The zero `KindSpec` of an unknown kind has the empty type, whose normal balance is credit.
abbrev pub normal_of_kind : Option Kind → NormalBalance
normal_of_kind none = NormalBalance.normal_credit
normal_of_kind (some k) = normal_balance_of (chart k).account_type

-- `Balances.Of`
unfoldable pub balance_of : Balances → AccountKey → ℤ
balance_of b key = elim (lookup key_eq key b) [ some v ↦ v | none ↦ pos 0 ]

-- `b[key] += delta`
unfoldable pub add_to : AccountKey → ℤ → Balances → Balances
unfolding balance_of
add_to key delta b = insert key_eq key (add64 (balance_of b key) delta) b

abbrev pub delta_of : Entry → ℤ
delta_of e = signed_delta (normal_of_kind (kind_of_key e.account)) e.direction e.amount.amount_minor

-- The loop of `Apply`.
unfoldable pub apply_entries : List Entry → Balances → Balances
unfolding add_to
apply_entries [] b = b
apply_entries (e ∷ es) b = apply_entries es (add_to e.account (delta_of e) b)

-- `Balances.Apply`; the balances come back after an error too.
unfoldable pub apply : Journal → Balances → Result LedgerError (Unit {0}) × Balances
unfolding apply_entries
apply j b = elim (validate j) [ ok _ ↦ (ok tt, apply_entries j.entries b) | err e ↦ (err e, b) ]

pub record TrialBalance : Type 0 where
  pub currency : String
  pub livemode : Bool
  pub assets : ℤ
  pub liabilities : ℤ
  pub revenue : ℤ
  pub expense : ℤ

-- `Equity`
abbrev pub equity : TrialBalance → ℤ
equity t = sub64 t.revenue t.expense

-- `Balanced`
abbrev pub is_balanced : TrialBalance → Bool
is_balanced t = eqb_ℤ t.assets (add64 t.liabilities (equity t))

abbrev pub empty_trial : TrialBalance
empty_trial = record {
  currency = "";
  livemode = false;
  assets = pos 0;
  liabilities = pos 0;
  revenue = pos 0;
  expense = pos 0;
}

-- The `switch` of `TrialBalances` on the account's type.
unfoldable pub add_balance : Option Kind → ℤ → TrialBalance → TrialBalance
add_balance none bal t = t
add_balance (some k) bal t = elim (chart k).account_type [
  | AccountType.asset ↦ record t { assets = add64 t.assets bal }
  | AccountType.liability ↦ record t { liabilities = add64 t.liabilities bal }
  | AccountType.revenue ↦ record t { revenue = add64 t.revenue bal }
  | AccountType.expense ↦ record t { expense = add64 t.expense bal }
]

-- `fmt.Sprintf("%s/%t", …)`
abbrev pub group_key : String → Bool → String
group_key currency livemode = concat currency (concat "/" (if livemode then "true" else "false"))

abbrev pub trial_of : String → List (String × TrialBalance) → TrialBalance
trial_of group out = elim (lookup text_eq group out) [ some t ↦ t | none ↦ empty_trial ]

-- The loop of `TrialBalances`.
unfoldable pub trial_from : Balances → List (String × TrialBalance) → List (String × TrialBalance)
unfolding add_balance
trial_from [] out = out
trial_from ((key, bal) ∷ b) out =
    let group = group_key key.currency key.livemode in
    let t = record (trial_of group out) { currency = key.currency; livemode = key.livemode } in
    trial_from b (insert text_eq group (add_balance (kind_of_key key) bal t) out)

-- `TrialBalances`
unfoldable pub trial_balances : Balances → List (String × TrialBalance)
unfolding trial_from
trial_balances b = trial_from b []

-- `CheckIdentity`: whether it returns nil.
unfoldable pub check_identity : Balances → Bool
unfolding trial_balances
check_identity b = all (λ p. is_balanced p.1) (trial_balances b)

abbrev agrees : Balances → Balances → Bool
agrees b o = all (λ p. eqb_ℤ p.1 (balance_of o p.0)) b

-- `Equal`
unfoldable pub equal : Balances → Balances → Bool
unfolding balance_of
equal b o = agrees b o && agrees o b
