-- ===== src/Ledger/Reversal/Mirror.antt =====
-- `Reverse` of internal/ledger/domain/journal.go on a sound journal.
use payment_gateway.Base.{
  ◌≡◌, ◌≢◌, refl, sym, ap, ◌∙◌, arith, String, none, some, List, [], ◌∷◌, map, length-map, All, inl,
  inr,
}
use payment_gateway.Base.Action.{ok}
use payment_gateway.Base.Clock.{Time}
use payment_gateway.Ids.{Uuid, nil_uuid}
use payment_gateway.Ledger.Journal.{Journal, Entry, opposite, currency_of}
use payment_gateway.Ledger.Journal.Sound.{IsSound, IsPostable, debit_sum, credit_sum}
use payment_gateway.Ledger.Journal.Validate.{validate-of_IsSound}
use payment_gateway.Ledger.Reversal.{mirror, reversal_journal, reverse}

-- A mirrored entry may stand where the entry did.
mirror-IsPostable :
    (j k : Journal) (c : String) (e : Entry)
    → k.livemode ≡ j.livemode
    → k.merchant_id ≡ j.merchant_id
    → IsPostable j c e
    → IsPostable k c (mirror e)
mirror-IsPostable j k c e live merchant p = record {
  side = elim p.side [ inl d ↦ inr (ap opposite d) | inr d ↦ inl (ap opposite d) ];
  supported = p.supported;
  positive = p.positive;
  same_currency = p.same_currency;
  account_valid = p.account_valid;
  account_currency = p.account_currency;
  account_livemode = p.account_livemode ∙ sym live;
  owner = elim p.owner [
    | inl o ↦ inl o
    | inr (inl o) ↦ inr (inl (merchant ∙ o))
    | inr (inr o) ↦ inr (inr (o ∙ sym merchant))
  ];
}

mirrors-IsPostable :
    (j k : Journal) (c : String) (es : List Entry)
    → k.livemode ≡ j.livemode
    → k.merchant_id ≡ j.merchant_id
    → All (IsPostable j c) es
    → All (IsPostable k c) (map mirror es)
mirrors-IsPostable j k c [] live merchant p = tt
mirrors-IsPostable j k c (e ∷ es) live merchant p =
    (mirror-IsPostable j k c e live merchant p.0, mirrors-IsPostable j k c es live merchant p.1)

-- The two sides change places.
swapped_sums :
    (j : Journal) (c : String) (es : List Entry)
    → All (IsPostable j c) es
    → (debit_sum (map mirror es) ≡ credit_sum es) × (credit_sum (map mirror es) ≡ debit_sum es)
swapped_sums j c [] p = (refl, refl)
swapped_sums j c (e ∷ es) p = let rest = swapped_sums j c es p.1 in ground (arith, rest, p.0)

mirror-currency : (es : List Entry) → currency_of (map mirror es) ≡ currency_of es
mirror-currency [] = refl
mirror-currency (e ∷ es) = refl

module _ (orig : Journal) (event_id : Uuid) (description : String) (now : Time) (s : IsSound orig)
    (n : event_id ≢ nil_uuid) where
  pub reversal_journal-IsSound : IsSound (reversal_journal orig event_id description now)
  unfolding reversal_journal
  reversal_journal-IsSound =
      let c = currency_of orig.entries in
      let rev = reversal_journal orig event_id description now in
      let sums = swapped_sums orig c orig.entries s.postable in
      record {
        identified = n;
        known_reference = refl;
        two_entries = rw (length-map orig.entries mirror) s.two_entries;
        postable =
            rw (mirror-currency orig.entries)
              (mirrors-IsPostable orig rev c orig.entries refl refl s.postable);
        balanced = sums.0 ∙ sym s.balanced ∙ sym sums.1;
        bounded = omega (arith, s.bounded, s.balanced, sums.0);
      }

  -- A sound journal that is saved and not yet reversed is reversed by `Reverse`, under any event id
  -- but the nil one: the result is again sound, it points at the original, has its merchant and mode,
  -- and its entries are the original's with the two sides changed, so that each side's sum is the
  -- original's other one.
  pub reverse-IsSound :
      orig.id ≢ nil_uuid
      → orig.reversed_by ≡ none
      → (rev : Journal) × (reverse (some orig) event_id description now ≡ ok rev)
        × IsSound rev
        × (rev.reversal_of ≡ some orig.id)
        × (rev.merchant_id ≡ orig.merchant_id)
        × (rev.livemode ≡ orig.livemode)
        × (rev.entries ≡ map mirror orig.entries)
        × (debit_sum rev.entries ≡ credit_sum orig.entries)
        × (credit_sum rev.entries ≡ debit_sum orig.entries)
  unfolding reverse reversal_journal
  reverse-IsSound saved unreversed =
      let rev = reversal_journal orig event_id description now in
      let sound = reversal_journal-IsSound in
      let sums = swapped_sums orig (currency_of orig.entries) orig.entries s.postable in
      (
        rev,
        ground (arith, saved, unreversed, validate-of_IsSound rev sound),
        sound,
        refl,
        refl,
        refl,
        refl,
        sums.0,
        sums.1,
      )
