-- ===== src/Ledger/Account/Codes.antt =====
-- Account codes of internal/ledger/domain/account.go: what is written is read back, and the keys that
-- the templates build are valid.
use Prim.Native.Char.{code as char_code}
use text.Mathlib.TextEquality.{Char-path}
use payment_gateway.Base.{
  String, Bool, true, false, some, ◌≡◌, ◌≢◌, refl, arith, ◌==◌, concat, text_eq_iff, Bool-cases,
  Option-cases, inl, inr, ==_iff,
}
use payment_gateway.Base.Action.{ok}
use payment_gateway.Ids.{Uuid, nil_uuid}
use payment_gateway.Money.Currency.{is_supported_currency}
use payment_gateway.Ledger.Account.{
  validate_key, psp_receivable_key, bank_cash_key, psp_fee_expense_key, merchant_payable_key,
  refund_clearing_key, chargeback_reserve_key, fee_revenue_key, chargeback_fee_revenue_key,
}
use payment_gateway.Ledger.Chart.{
  Kind, chart, kind_text, is_qualifier, code_for, parse_code, storage_code, parse_storage_code,
  cut_prefix,
}

pub parse_qualified :
    (k : Kind) (q : String)
    → (chart k).qualified ≡ true
    → is_qualifier q ≡ true
    → parse_code (concat (kind_text k) (concat ":" q)) ≡ ok (k, q)
unfolding parse_code
parse_qualified Kind.psp_receivable q c h = rw h
parse_qualified Kind.bank_cash q c h = rw h
parse_qualified Kind.settlement_suspense q c h = rw h
parse_qualified Kind.merchant_payable q c h = cc
parse_qualified Kind.refund_clearing q c h = cc
parse_qualified Kind.chargeback_reserve q c h = cc
parse_qualified Kind.fee_revenue q c h = cc
parse_qualified Kind.chargeback_fee_revenue q c h = cc
parse_qualified Kind.psp_fee_expense q c h = rw h
parse_qualified Kind.chargeback_fee_expense q c h = rw h

parse_plain : (k : Kind) → (chart k).qualified ≡ false → parse_code (kind_text k) ≡ ok (k, "")
unfolding parse_code
parse_plain Kind.psp_receivable c = cc
parse_plain Kind.bank_cash c = cc
parse_plain Kind.settlement_suspense c = cc
parse_plain Kind.merchant_payable c = refl
parse_plain Kind.refund_clearing c = refl
parse_plain Kind.chargeback_reserve c = refl
parse_plain Kind.fee_revenue c = refl
parse_plain Kind.chargeback_fee_revenue c = refl
parse_plain Kind.psp_fee_expense c = cc
parse_plain Kind.chargeback_fee_expense c = cc

-- A code that `CodeFor` writes is read back by `ParseCode`, as the same kind and qualifier.
pub parse_code-code_for :
    (k : Kind) (qualifier : String) {code : String}
    → code_for k qualifier ≡ ok code
    → parse_code code ≡ ok (k, qualifier)
unfolding code_for
parse_code-code_for k qualifier {code} h = elim (Bool-cases (chart k).qualified) [
  | inl c ↦ elim (Bool-cases (is_qualifier qualifier)) [
    | inl q ↦
        let e : concat (kind_text k) (concat ":" qualifier) ≡ code = ground (arith, c, q) in
        rw (← e) (parse_qualified k qualifier c q)
    | inr q ↦ absurd (ground (arith, c, q))
  ]
  | inr c ↦
      let empty : qualifier ≡ "" = ground (arith, c, text_eq_iff qualifier "") in
      let e : kind_text k ≡ code = ground (arith, c) in rw (← e, empty) (parse_plain k c)
]

-- The keys of the accounts that a template posts to are valid, in a supported currency.
module _ (q : String) (cur : String) (live : Bool) (s : is_supported_currency cur ≡ true) where
  pub psp_receivable-valid :
      is_qualifier q ≡ true → validate_key (psp_receivable_key q cur live) ≡ ok tt
  unfolding validate_key
  psp_receivable-valid h = rw (parse_qualified Kind.psp_receivable q refl h, s)

  pub bank_cash-valid : is_qualifier q ≡ true → validate_key (bank_cash_key q cur live) ≡ ok tt
  unfolding validate_key
  bank_cash-valid h = rw (parse_qualified Kind.bank_cash q refl h, s)

  pub psp_fee_expense-valid :
      is_qualifier q ≡ true → validate_key (psp_fee_expense_key q cur live) ≡ ok tt
  unfolding validate_key
  psp_fee_expense-valid h = rw (parse_qualified Kind.psp_fee_expense q refl h, s)

module _ (m : Uuid) (cur : String) (live : Bool) (s : is_supported_currency cur ≡ true)
    (n : m ≢ nil_uuid) where
  pub merchant_payable-valid : validate_key (merchant_payable_key m cur live) ≡ ok tt
  unfolding validate_key
  merchant_payable-valid = rw (parse_plain Kind.merchant_payable refl, s) (ground (arith, n))

  pub refund_clearing-valid : validate_key (refund_clearing_key m cur live) ≡ ok tt
  unfolding validate_key
  refund_clearing-valid = rw (parse_plain Kind.refund_clearing refl, s) (ground (arith, n))

  pub chargeback_reserve-valid : validate_key (chargeback_reserve_key m cur live) ≡ ok tt
  unfolding validate_key
  chargeback_reserve-valid = rw (parse_plain Kind.chargeback_reserve refl, s) (ground (arith, n))

module _ (cur : String) (live : Bool) (s : is_supported_currency cur ≡ true) where
  pub fee_revenue-valid : validate_key (fee_revenue_key cur live) ≡ ok tt
  unfolding validate_key
  fee_revenue-valid = rw (parse_plain Kind.fee_revenue refl, s)

  pub chargeback_fee_revenue-valid : validate_key (chargeback_fee_revenue_key cur live) ≡ ok tt
  unfolding validate_key
  chargeback_fee_revenue-valid = rw (parse_plain Kind.chargeback_fee_revenue refl, s)

-- What is cut off was the front of the text.
concat-cut_prefix : (s p : String) {r : String} → cut_prefix s p ≡ some r → s ≡ concat p r
concat-cut_prefix s String.[] h = cc
concat-cut_prefix String.[] (String.◌∷◌ d p) h = cc
concat-cut_prefix (String.◌∷◌ c s) (String.◌∷◌ d p) {r} h =
    elim (Bool-cases (char_code c == char_code d)) [
      | inl same ↦
          let q : c ≡ d = Char-path c d ((==_iff (char_code c) (char_code d)).0 same) in
          let e : cut_prefix s p ≡ some r = rw same at h in cc (q, concat-cut_prefix s p e)
      | inr apart ↦ absurd (ground (arith, apart, h))
    ]

-- No code of the chart begins with the prefix of the test accounts.
parse_test_code : (s : String) {r : Kind × String} → parse_code (concat "test:" s) ≡ ok r → ⊥
unfolding parse_code
parse_test_code s h = cc

-- What `StorageCode` stores is restored by `ParseStorageCode`, for a code of the chart: its text and
-- whether it is live.
pub parse_storage_code-storage_code :
    (code : String) (livemode : Bool) {r : Kind × String}
    → parse_code code ≡ ok r
    → parse_storage_code (storage_code code livemode) ≡ (code, livemode)
unfolding parse_storage_code storage_code
parse_storage_code-storage_code code false h = refl
parse_storage_code-storage_code code true {r} h = elim (Option-cases (cut_prefix code "test:")) [
  | inl e ↦ rw (e, parse_storage_code)
  | inr (rest, e) ↦ absurd (parse_test_code rest (rw (concat-cut_prefix code "test:" e) at h))
]

-- Account codes survive both encodings: a code that `CodeFor` writes is read back by `ParseCode` as the
-- same kind and qualifier, and `ParseStorageCode` restores it, with whether it is live, from what
-- `StorageCode` stores.
pub code_for-restored :
    (k : Kind) (qualifier : String) (livemode : Bool) {code : String}
    → code_for k qualifier ≡ ok code
    → (parse_code code ≡ ok (k, qualifier))
      × (parse_storage_code (storage_code code livemode) ≡ (code, livemode))
code_for-restored k qualifier livemode {code} h =
    let read = parse_code-code_for k qualifier h in
    (read, parse_storage_code-storage_code code livemode read)
