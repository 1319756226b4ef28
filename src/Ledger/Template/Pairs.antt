-- ===== src/Ledger/Template/Pairs.antt =====
-- Journals of one debit and one credit, and of a second such pair for the fee, as most templates of
-- internal/ledger/domain/template.go write them.
use payment_gateway.Base.{
  String, true, List, [], ◌∷◌, ◌≡◌, ◌⊎◌, inl, inr, refl, arith, All, sym, ◌∙◌, ap,
}
use payment_gateway.Base.Action.{ok}
use payment_gateway.Base.Int.{pos, ◌<ℤ◌}
use payment_gateway.Money.{Money}
use payment_gateway.Money.Currency.{is_supported_currency}
use payment_gateway.Ledger.Account.{
  AccountKey, is_system, validate_key, psp_receivable_key, merchant_payable_key, fee_revenue_key,
  refund_clearing_key, chargeback_reserve_key, chargeback_fee_revenue_key,
}
use payment_gateway.Ledger.Account.Codes.{
  psp_receivable-valid, merchant_payable-valid, refund_clearing-valid, chargeback_reserve-valid,
  fee_revenue-valid, chargeback_fee_revenue-valid,
}
use payment_gateway.Ledger.Journal.{Journal, Entry, Direction, ReferenceType, is_valid_reference}
use payment_gateway.Ledger.Journal.Sound.{IsSound, IsPostable}
use payment_gateway.Ledger.Event.{PaymentEvent, has_fee}
use payment_gateway.Ledger.Posting.{base_journal, entry}
use payment_gateway.Ledger.Template.Complete.{IsComplete, HasProvider}

-- An account that an entry of the event's journal may name.
abbrev pub IsAccountOf : PaymentEvent → AccountKey → Type 0
IsAccountOf ev acct =
    (validate_key acct ≡ ok tt)
    × (acct.currency ≡ ev.amount.currency)
    × (acct.livemode ≡ ev.livemode)
    × ((is_system acct ≡ true) ⊎ (acct.merchant_id ≡ ev.merchant_id))

-- A templated entry may stand in a journal of the event's merchant and mode.
module _ (ev : PaymentEvent) (c : IsComplete ev) (j : Journal) (live : j.livemode ≡ ev.livemode)
    (merchant : j.merchant_id ≡ ev.merchant_id) where
  abbrev IsPosted : Entry → Type 0
  IsPosted = IsPostable j ev.amount.currency

  pub entry-IsPostable :
      (acct : AccountKey) (dir : Direction) (amt : Money) (desc : String)
      → (dir ≡ Direction.debit) ⊎ (dir ≡ Direction.credit)
      → amt.currency ≡ ev.amount.currency
      → pos 0 <ℤ amt.amount_minor
      → IsAccountOf ev acct
      → IsPosted (entry acct dir amt desc)
  entry-IsPostable acct dir amt desc side cur pos_amt (valid, acct_cur, acct_live, owner) = record {
    side = side;
    supported = ap is_supported_currency cur ∙ c.supported;
    positive = pos_amt;
    same_currency = cur;
    account_valid = valid;
    account_currency = acct_cur;
    account_livemode = acct_live ∙ sym live;
    owner = elim owner [ inl o ↦ inl o | inr o ↦ inr (inr (o ∙ sym merchant)) ];
  }

  -- A debit and a credit of one amount, before entries that may stand in the journal.
  pair-IsPostable :
      (a b : AccountKey) (amt : Money) (d k : String) (rest : List Entry)
      → amt.currency ≡ ev.amount.currency
      → pos 0 <ℤ amt.amount_minor
      → IsAccountOf ev a
      → IsAccountOf ev b
      → All IsPosted rest
      → All IsPosted (entry a Direction.debit amt d ∷ entry b Direction.credit amt k ∷ rest)
  pair-IsPostable a b amt d k rest cur positive ha hb r = (
    entry-IsPostable a Direction.debit amt d (inl refl) cur positive ha,
    (entry-IsPostable b Direction.credit amt k (inr refl) cur positive hb, r),
  )

module _ (ev : PaymentEvent) (c : IsComplete ev) where
  pub payable : IsAccountOf ev (merchant_payable_key ev.merchant_id ev.amount.currency ev.livemode)
  payable = (
    merchant_payable-valid ev.merchant_id ev.amount.currency ev.livemode c.supported c.merchant_id,
    refl,
    refl,
    inr refl,
  )

  pub clearing : IsAccountOf ev (refund_clearing_key ev.merchant_id ev.amount.currency ev.livemode)
  clearing = (
    refund_clearing-valid ev.merchant_id ev.amount.currency ev.livemode c.supported c.merchant_id,
    refl,
    refl,
    inr refl,
  )

  pub reserve :
      IsAccountOf ev (chargeback_reserve_key ev.merchant_id ev.amount.currency ev.livemode)
  reserve = (
    chargeback_reserve-valid ev.merchant_id ev.amount.currency ev.livemode c.supported
        c.merchant_id,
    refl,
    refl,
    inr refl,
  )

  pub receivable :
      HasProvider ev
      → IsAccountOf ev (psp_receivable_key ev.provider ev.amount.currency ev.livemode)
  receivable h = (
    psp_receivable-valid ev.provider ev.amount.currency ev.livemode c.supported h,
    refl,
    refl,
    inl refl,
  )

  pub revenue : IsAccountOf ev (fee_revenue_key ev.amount.currency ev.livemode)
  revenue = (fee_revenue-valid ev.amount.currency ev.livemode c.supported, refl, refl, inl refl)

  pub chargeback_revenue :
      IsAccountOf ev (chargeback_fee_revenue_key ev.amount.currency ev.livemode)
  chargeback_revenue = (
    chargeback_fee_revenue-valid ev.amount.currency ev.livemode c.supported,
    refl,
    refl,
    inl refl,
  )

  -- The journal of one pair, and of a second pair for the fee.
  module _ (t : String) (ref : ReferenceType) (id text : String)
      (known : is_valid_reference ref ≡ true) (a b : AccountKey) (d k : String)
      (ha : IsAccountOf ev a) (hb : IsAccountOf ev b) where
    pub one_pair-IsSound : IsSound (
        base_journal ev t ref id text
          (entry a Direction.debit ev.amount d ∷ entry b Direction.credit ev.amount k ∷ []))
    unfolding base_journal
    one_pair-IsSound =
        let es = entry a Direction.debit ev.amount d ∷ entry b Direction.credit ev.amount k ∷ [] in
        record {
          identified = c.event_id;
          known_reference = known;
          two_entries = omega arith;
          postable =
              pair-IsPostable ev c (base_journal ev t ref id text es) refl refl a b ev.amount d k []
                refl c.positive ha hb tt;
          balanced = omega arith;
          bounded = omega (arith, c.bounded);
        }

    pub two_pairs-IsSound :
        (a' b' : AccountKey) (d' k' : String)
        → IsAccountOf ev a'
        → IsAccountOf ev b'
        → has_fee ev ≡ true
        → IsSound (
            base_journal ev t ref id text (
              entry a Direction.debit ev.amount d
              ∷ entry b Direction.credit ev.amount k
              ∷ entry a' Direction.debit ev.fee d'
              ∷ entry b' Direction.credit ev.fee k'
              ∷ []))
    unfolding base_journal
    two_pairs-IsSound a' b' d' k' ha' hb' f =
        let positive : pos 0 <ℤ ev.fee.amount_minor = ground (arith, f) in
        let second =
          entry a' Direction.debit ev.fee d' ∷ entry b' Direction.credit ev.fee k' ∷ [] in
        let es =
          entry a Direction.debit ev.amount d ∷ entry b Direction.credit ev.amount k ∷ second in
        let j = base_journal ev t ref id text es in
        record {
          identified = c.event_id;
          known_reference = known;
          two_entries = omega arith;
          postable =
              pair-IsPostable ev c j refl refl a b ev.amount d k second refl c.positive ha hb (
                pair-IsPostable ev c j refl refl a' b' ev.fee d' k' [] (c.fee_currency positive)
                  positive ha' hb' tt);
          balanced = omega arith;
          bounded = omega (arith, c.bounded);
        }
