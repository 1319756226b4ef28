-- ===== src/Ledger/Template/Capture.antt =====
-- The capture template of internal/ledger/domain/template.go.
use payment_gateway.Base.{
  Bool, true, false, [], ◌∷◌, ◌≡◌, inl, inr, refl, arith, ◌+◌, ◌≤◌, length, All, All-append, sym,
  ◌∙◌, Bool-cases, if◌then◌else◌, concat,
}
use payment_gateway.Base.Int.{ℤ, pos, pos_part, ◌≤ℤ◌, IsInt64, ltb_ℤ, ◌-ℤ◌, -ℤ_parts}
use payment_gateway.Money
use payment_gateway.Money.{Money}
use payment_gateway.Money.Arithmetic.{sub_exact_or_negative}
use payment_gateway.Ledger.Journal.{Journal, Entry, Direction, ReferenceType}
use payment_gateway.Ledger.Journal.Sound.{IsSound, IsPostable, debit_sum, credit_sum}
use payment_gateway.Ledger.Journal.Validate.{validate-of_IsSound}
use payment_gateway.Ledger.Event.{PaymentEvent, has_fee}
use payment_gateway.Ledger.Template.{template_capture, capture_fee, capture_entries}
use payment_gateway.Ledger.Posting.{base_journal}
use payment_gateway.Ledger.Template.Complete.{
  IsComplete, HasProvider, check-of_IsComplete, require-of_HasProvider, Posts,
}
use payment_gateway.Ledger.Template.Pairs.{entry-IsPostable, payable, receivable, revenue}

not_below : (a b : ℤ) → a ≤ℤ b → ltb_ℤ b a ≡ false
not_below a b h = ground (arith, h)

parts_of_diff : (a b : ℤ) → pos 0 ≤ℤ b → b ≤ℤ a → pos_part b + pos_part (a -ℤ b) ≡ pos_part a
parts_of_diff a b hb le = ground (arith, -ℤ_parts a b)

pub optional-All :
    (P : Entry → Type 0) (b : Bool) (e : Entry)
    → (b ≡ true → P e)
    → All P (if b then e ∷ [] else [])
optional-All P true e p = (p refl, tt)
optional-All P false e p = tt

module _ (ev : PaymentEvent) (c : IsComplete ev) where
  -- The journal of a capture, from a fee and a net that make up the amount.
  module _ (h : HasProvider ev) (fee net : Money) (fee_cur : fee.currency ≡ ev.amount.currency)
      (net_cur : net.currency ≡ ev.amount.currency) (fee_nonneg : pos 0 ≤ℤ fee.amount_minor)
      (net_nonneg : pos 0 ≤ℤ net.amount_minor)
      (sums : pos_part fee.amount_minor + pos_part net.amount_minor
        ≡ pos_part ev.amount.amount_minor) where
    abbrev capture_journal : Journal
    unfolding base_journal
    capture_journal =
        base_journal ev "J-CAP" ReferenceType.payment ev.payment_id
          (concat "Capture " ev.payment_id) (capture_entries ev fee net)

    capture-IsPostable :
        (j : Journal)
        → j.livemode ≡ ev.livemode
        → j.merchant_id ≡ ev.merchant_id
        → All (IsPostable j ev.amount.currency) (capture_entries ev fee net)
    capture-IsPostable j live merchant =
        let post = entry-IsPostable ev c j live merchant in
        (
          post _ Direction.debit ev.amount "captured gross" (inl refl) refl c.positive
              (receivable ev c h),
          All-append (IsPostable j ev.amount.currency) _ _
              (optional-All (IsPostable j ev.amount.currency) (Money.is_positive net) _ (λ n.
                post _ Direction.credit net "captured net of fee" (inr refl) net_cur
                  (ground (arith, n)) (payable ev c)))
              (optional-All (IsPostable j ev.amount.currency) (Money.is_positive fee) _ (λ f.
                post _ Direction.credit fee "platform fee" (inr refl) fee_cur (ground (arith, f))
                  (revenue ev c))),
        )

    capture_sums :
        (debit_sum (capture_entries ev fee net) ≡ pos_part ev.amount.amount_minor)
        × (credit_sum (capture_entries ev fee net) ≡ pos_part ev.amount.amount_minor)
        × (2 ≤ length (capture_entries ev fee net))
    capture_sums = ground (arith, sums, c.positive)

    capture-IsSound : IsSound capture_journal
    unfolding capture_journal
    capture-IsSound = record {
      identified = c.event_id;
      known_reference = refl;
      two_entries = capture_sums.2;
      postable = capture-IsPostable capture_journal refl refl;
      balanced = capture_sums.0 ∙ sym capture_sums.1;
      bounded = omega (arith, c.bounded, capture_sums.0);
    }

  -- The fee that a capture takes: no more than the amount, in its currency.
  abbrev IsFeeOf : Money → Type 0
  IsFeeOf fee =
      (fee.currency ≡ ev.amount.currency)
      × (pos 0 ≤ℤ fee.amount_minor)
      × (fee.amount_minor ≤ℤ ev.amount.amount_minor)

  capture_fee-IsFeeOf : ev.fee.amount_minor ≤ℤ ev.amount.amount_minor → IsFeeOf (capture_fee ev)
  capture_fee-IsFeeOf le = elim (Bool-cases (has_fee ev)) [
    | inl f ↦ rw f (c.fee_currency (ground (arith, f)), c.fee_nonneg, le)
    | inr f ↦ rw f (refl, omega arith, omega (arith, c.positive))
  ]

  amount-IsInt64 : IsInt64 ev.amount.amount_minor
  amount-IsInt64 = ground (arith, c.positive, c.bounded)

  pub capture-Posts :
      HasProvider ev
      → ev.fee.amount_minor ≤ℤ ev.amount.amount_minor
      → Posts ev (template_capture ev)
  unfolding template_capture capture_journal
  capture-Posts h le =
      let fee = capture_fee ev in
      let (cur, nonneg, fits) = capture_fee-IsFeeOf le in
      let (diff, diff_nonneg) =
        (sub_exact_or_negative ev.amount fee (sym cur) amount-IsInt64 nonneg).0 fits in
      let net : Money = record ev.amount {
        amount_minor = ev.amount.amount_minor -ℤ fee.amount_minor;
      } in
      let s =
        capture-IsSound h fee net cur refl nonneg diff_nonneg
          (parts_of_diff ev.amount.amount_minor fee.amount_minor nonneg fits) in
      let j =
        capture_journal h fee net cur refl nonneg diff_nonneg
          (parts_of_diff ev.amount.amount_minor fee.amount_minor nonneg fits) in
      (
        j,
        rw (
          require-of_HasProvider ev h,
          check-of_IsComplete ev c,
          not_below fee.amount_minor ev.amount.amount_minor fits,
          diff,
          validate-of_IsSound j s,
        ),
        s,
        refl,
        refl,
        refl,
      )
