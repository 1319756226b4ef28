-- ===== src/Ledger/Settlement/Posts.antt =====
-- The settlement journal of internal/ledger/domain/template.go.
use payment_gateway.Base.{
  ◌≡◌, ◌≢◌, ◌⊎◌, inl, inr, refl, sym, ap, ◌∙◌, arith, String, true, All, All-append, length, ◌+◌,
  ◌<◌, ◌≤◌, ◌^◌, text_eq_iff, text_eq_refl, Bool-cases, text_eq, bool_eq, ◌&&◌, false, Bool, List,
  [], ◌∷◌, ℕ, if◌then◌else◌,
}
use payment_gateway.Base.Action.{Result, ok, err}
use payment_gateway.Base.Int.{ℤ, pos, pos_part, ◌<ℤ◌, ◌≤ℤ◌, ◌+ℤ◌, +ℤ_parts, eq_of_parts, IsInt64}
use payment_gateway.Ids.{nil_uuid}
use payment_gateway.Money
use payment_gateway.Money.{Money}
use payment_gateway.Money.Currency.{is_supported_currency}
use payment_gateway.Money.Arithmetic.{add_exact_or_overflow, equal_iff}
use payment_gateway.Ledger.Account.{
  AccountKey, is_system, validate_key, bank_cash_key, psp_fee_expense_key,
}
use payment_gateway.Ledger.Chart.{Kind, LedgerError, kind_text, is_qualifier, parse_code}
use payment_gateway.Ledger.Account.Codes.{
  parse_qualified, psp_receivable-valid, bank_cash-valid, psp_fee_expense-valid,
}
use payment_gateway.Ledger.Journal.{Journal, Entry, Direction, is_debit, currency_of}
use payment_gateway.Ledger.Journal.Sound.{IsSound, IsPostable, debit_sum, credit_sum}
use payment_gateway.Ledger.Journal.Validate.{validate-of_IsSound}
use payment_gateway.Ledger.Event.{SettlementPosted}
use payment_gateway.Ledger.Settlement.{settlement_entries, settlement_journal, settlement_template}
use payment_gateway.Ledger.Posting.{entry}
use payment_gateway.Ledger.Template.Complete.{nonempty_of_qualifier}
use payment_gateway.Ledger.Template.Capture.{optional-All}

-- A settlement whose amounts add up.
pub record IsSettlement (s : SettlementPosted) : Type 0 where
  pub event_id : s.event_id ≢ nil_uuid
  pub settlement_id : s.settlement_id ≢ ""
  pub provider : is_qualifier s.provider ≡ true
  pub bank : is_qualifier s.bank_account ≡ true
  pub supported : is_supported_currency s.gross.currency ≡ true
  pub fees_currency : s.psp_fees.currency ≡ s.gross.currency
  pub net_currency : s.net_paid.currency ≡ s.gross.currency
  pub positive : pos 0 <ℤ s.gross.amount_minor
  pub fees_nonneg : pos 0 ≤ℤ s.psp_fees.amount_minor
  pub net_nonneg : pos 0 ≤ℤ s.net_paid.amount_minor
  pub adds_up :
      pos_part s.net_paid.amount_minor + pos_part s.psp_fees.amount_minor
      ≡ pos_part s.gross.amount_minor
  pub bounded : pos_part s.gross.amount_minor < 2 ^ 63

-- Whether an entry stands on a side, in an account of a kind with a qualifier.
abbrev is_in : Direction → Kind → String → Direction → Result LedgerError (Kind × String) → Bool
is_in dir kind qualifier d (ok (k, q)) =
    bool_eq (is_debit d) (is_debit dir)
    && text_eq (kind_text k) (kind_text kind)
    && text_eq q qualifier
is_in dir kind qualifier d (err _) = false

-- What the entries post to the accounts of a kind with a qualifier, on one side.
abbrev pub posted : Direction → Kind → String → List Entry → ℕ
posted dir kind qualifier [] = 0
posted dir kind qualifier (e ∷ es) =
    (if is_in dir kind qualifier e.direction (parse_code e.account.code)
      then pos_part e.amount.amount_minor
      else 0)
    + posted dir kind qualifier es

-- The net amount is debited to the bank account, the fees to the expenses at the provider, and the
-- gross credited to what the provider owes.
abbrev pub PostsTo : SettlementPosted → List Entry → Type 0
PostsTo s entries =
    (posted Direction.debit Kind.bank_cash s.bank_account entries
      ≡ pos_part s.net_paid.amount_minor)
    × (posted Direction.debit Kind.psp_fee_expense s.provider entries
        ≡ pos_part s.psp_fees.amount_minor)
    × (posted Direction.credit Kind.psp_receivable s.provider entries
        ≡ pos_part s.gross.amount_minor)

module _ (s : SettlementPosted) (c : IsSettlement s) where
  -- An entry of a system account in the settlement's currency and mode.
  system-IsPostable :
      (j : Journal) (acct : AccountKey) (dir : Direction) (amt : Money) (desc : String)
      → j.livemode ≡ s.livemode
      → (dir ≡ Direction.debit) ⊎ (dir ≡ Direction.credit)
      → amt.currency ≡ s.gross.currency
      → pos 0 <ℤ amt.amount_minor
      → (validate_key acct ≡ ok tt)
        × (acct.currency ≡ s.gross.currency)
        × (acct.livemode ≡ s.livemode)
        × (is_system acct ≡ true)
      → IsPostable j s.gross.currency (entry acct dir amt desc)
  system-IsPostable j acct dir amt desc live side cur positive (valid, acct_cur, acct_live, owner) =
      record {
        side = side;
        supported = ap is_supported_currency cur ∙ c.supported;
        positive = positive;
        same_currency = cur;
        account_valid = valid;
        account_currency = acct_cur;
        account_livemode = acct_live ∙ sym live;
        owner = inl owner;
      }

  entries-IsPostable :
      (j : Journal)
      → j.livemode ≡ s.livemode
      → All (IsPostable j s.gross.currency) (settlement_entries s)
  entries-IsPostable j live =
      let cur = s.gross.currency in
      let post = system-IsPostable j in
      let P = IsPostable j cur in
      All-append P _ _
        (optional-All P (Money.is_positive s.net_paid)
          (entry (bank_cash_key s.bank_account cur s.livemode) Direction.debit s.net_paid
            "settlement net paid")
          (λ n.
            post _ Direction.debit s.net_paid _ live (inl refl) c.net_currency (ground (arith, n))
              (bank_cash-valid s.bank_account cur s.livemode c.supported c.bank, refl, refl, refl)))
        (All-append P _ _
          (optional-All P (Money.is_positive s.psp_fees)
            (entry (psp_fee_expense_key s.provider cur s.livemode) Direction.debit s.psp_fees
              "PSP fees")
            (λ n.
              post _ Direction.debit s.psp_fees _ live (inl refl) c.fees_currency
                (ground (arith, n))
                (
                  psp_fee_expense-valid s.provider cur s.livemode c.supported c.provider,
                  refl,
                  refl,
                  refl,
                )))
          (
            post _ Direction.credit s.gross _ live (inr refl) refl c.positive (
              psp_receivable-valid s.provider cur s.livemode c.supported c.provider,
              refl,
              refl,
              refl,
            ),
            tt,
          ))

  settlement_sums :
      (debit_sum (settlement_entries s) ≡ pos_part s.gross.amount_minor)
      × (credit_sum (settlement_entries s) ≡ pos_part s.gross.amount_minor)
      × (2 ≤ length (settlement_entries s))
      × (currency_of (settlement_entries s) ≡ s.gross.currency)
  settlement_sums = ground (arith, c)

  entries-system : All (λ e. is_system e.account ≡ true) (settlement_entries s)
  entries-system = ground arith

  entries-PostsTo : PostsTo s (settlement_entries s)
  entries-PostsTo =
      let bank = parse_qualified Kind.bank_cash s.bank_account refl c.bank in
      let fees = parse_qualified Kind.psp_fee_expense s.provider refl c.provider in
      let owed = parse_qualified Kind.psp_receivable s.provider refl c.provider in
      elim (Bool-cases (Money.is_positive s.net_paid)) [
        | inl n ↦ elim (Bool-cases (Money.is_positive s.psp_fees)) [
          | inl f ↦
              rw (n, f, bank, fees, owed, text_eq_refl s.bank_account, text_eq_refl s.provider)
                (ground (arith, n, f, c.net_nonneg, c.fees_nonneg))
          | inr f ↦
              rw (n, f, bank, owed, text_eq_refl s.bank_account, text_eq_refl s.provider)
                (ground (arith, n, f, c.net_nonneg, c.fees_nonneg))
        ]
        | inr n ↦ elim (Bool-cases (Money.is_positive s.psp_fees)) [
          | inl f ↦
              rw (n, f, fees, owed, text_eq_refl s.provider)
                (ground (arith, n, f, c.net_nonneg, c.fees_nonneg))
          | inr f ↦
              rw (n, f, owed, text_eq_refl s.provider)
                (ground (arith, n, f, c.net_nonneg, c.fees_nonneg))
        ]
      ]

  settlement-IsSound : IsSound (settlement_journal s)
  unfolding settlement_journal
  settlement-IsSound = record {
    identified = c.event_id;
    known_reference = refl;
    two_entries = settlement_sums.2;
    postable = rw settlement_sums.3 (entries-IsPostable (settlement_journal s) refl);
    balanced = settlement_sums.0 ∙ sym settlement_sums.1;
    bounded = omega (arith, c.bounded, settlement_sums.0);
  }

  added : Money.add s.net_paid s.psp_fees ≡ ok s.gross
  added =
      let net = s.net_paid in
      let fees = s.psp_fees in
      let sum = +ℤ_parts net.amount_minor fees.amount_minor in
      let total : net.amount_minor +ℤ fees.amount_minor ≡ s.gross.amount_minor =
        eq_of_parts (net.amount_minor +ℤ fees.amount_minor) s.gross.amount_minor
          (ground (arith, sum, c.adds_up, c.positive, c.fees_nonneg, c.net_nonneg)) in
      let in_range : (a : ℤ) → pos 0 ≤ℤ a → pos_part a ≤ pos_part s.gross.amount_minor → IsInt64 a =
        λ a h le. omega (arith, h, le, c.bounded) in
      let exact =
        add_exact_or_overflow net fees (c.net_currency ∙ sym c.fees_currency)
          (in_range net.amount_minor c.net_nonneg (omega (arith, c.adds_up)))
          (in_range fees.amount_minor c.fees_nonneg (omega (arith, c.adds_up))) in
      ground (arith, exact, total, c.net_currency, c.bounded, c.positive)

  -- A settlement that names its event, its id, and a provider and a bank account that may stand in
  -- account codes, with amounts in one supported currency, a positive gross that fits an int64, and net
  -- and fees that are not negative and add up to the gross, is posted as one sound journal. Every
  -- account in it is a system account; the net amount is debited to the cash of the bank account, the
  -- fees to the fee expense of the provider, and the gross is credited to the receivable of the
  -- provider, each in full; both sides sum to the gross.
  pub settlement_template-IsSound :
      (settlement_template s ≡ ok (settlement_journal s))
      × IsSound (settlement_journal s)
      × (debit_sum (settlement_journal s).entries ≡ pos_part s.gross.amount_minor)
      × All (λ e. is_system e.account ≡ true) (settlement_journal s).entries
      × PostsTo s (settlement_journal s).entries
  unfolding settlement_template settlement_journal Money.validate
  settlement_template-IsSound =
      let sound = settlement-IsSound in
      (
        ground (
          arith,
          c,
          text_eq_iff s.settlement_id "",
          nonempty_of_qualifier s.provider c.provider,
          nonempty_of_qualifier s.bank_account c.bank,
          text_eq_iff s.gross.currency s.psp_fees.currency,
          text_eq_iff s.gross.currency s.net_paid.currency,
          added,
          equal_iff s.gross s.gross,
          validate-of_IsSound (settlement_journal s) sound,
        ),
        sound,
        settlement_sums.0,
        entries-system,
        entries-PostsTo,
      )
