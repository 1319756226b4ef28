-- ===== src/Ledger/Template/Posts.antt =====
-- The other templates of internal/ledger/domain/template.go, and `TemplateFor`.
use payment_gateway.Base.{true, ◌≡◌, ◌≢◌, inl, inr, refl, arith, Bool-cases, ◌&&◌, concat}
use payment_gateway.Base.Int.{◌≤ℤ◌}
use payment_gateway.Ledger.Journal.{ReferenceType}
use payment_gateway.Ledger.Journal.Validate.{validate-of_IsSound}
use payment_gateway.Ledger.Event.{PaymentEvent, EventType, has_fee}
use payment_gateway.Ledger.Fee.{Policy}
use payment_gateway.Ledger.Template.{
  template_refund_pending, template_refund_succeeded, template_refund_failed,
  template_dispute_opened, template_dispute_lost, template_dispute_won, template_for, by_type,
}
use payment_gateway.Ledger.Posting.{base_journal}
use payment_gateway.Ledger.Template.Complete.{
  IsComplete, HasProvider, check-of_IsComplete, require-of_HasProvider, text_neq, Posts,
}
use payment_gateway.Ledger.Template.Pairs.{
  payable, clearing, reserve, receivable, revenue, chargeback_revenue, one_pair-IsSound,
  two_pairs-IsSound,
}
use payment_gateway.Ledger.Template.Capture.{capture-Posts}

module _ (ev : PaymentEvent) (c : IsComplete ev) where
  -- The template of a refund that was asked for.
  refund_pending-Posts : ev.refund_id ≢ "" → Posts ev (template_refund_pending ev)
  unfolding template_refund_pending base_journal
  refund_pending-Posts r =
      let s =
        one_pair-IsSound ev c "J-REF-PEND" ReferenceType.refund ev.refund_id
          (concat "Refund pending " ev.refund_id) refl _ _ "refund reserved from merchant balance"
          "refund awaiting PSP confirmation" (payable ev c) (clearing ev c) in
      (
        _,
        rw (text_neq ev.refund_id r, check-of_IsComplete ev c, validate-of_IsSound _ s),
        s,
        refl,
        refl,
        refl,
      )

  refund_failed-Posts : ev.refund_id ≢ "" → Posts ev (template_refund_failed ev)
  unfolding template_refund_failed base_journal
  refund_failed-Posts r =
      let s =
        one_pair-IsSound ev c "J-REF-FAIL" ReferenceType.refund ev.refund_id
          (concat "Refund failed " ev.refund_id) refl _ _ "refund clearing released"
          "refund returned to merchant balance" (clearing ev c) (payable ev c) in
      (
        _,
        rw (text_neq ev.refund_id r, check-of_IsComplete ev c, validate-of_IsSound _ s),
        s,
        refl,
        refl,
        refl,
      )

  dispute_lost-Posts : HasProvider ev → ev.dispute_id ≢ "" → Posts ev (template_dispute_lost ev)
  unfolding template_dispute_lost base_journal
  dispute_lost-Posts h r =
      let s =
        one_pair-IsSound ev c "J-CB-LOST" ReferenceType.dispute ev.dispute_id
          (concat "Dispute lost " ev.dispute_id) refl _ _ "reserve consumed by chargeback"
          "chargeback deducted by PSP" (reserve ev c) (receivable ev c h) in
      (
        _,
        rw (
          text_neq ev.dispute_id r,
          require-of_HasProvider ev h,
          check-of_IsComplete ev c,
          validate-of_IsSound _ s,
        ),
        s,
        refl,
        refl,
        refl,
      )

  refund_succeeded-Posts :
      HasProvider ev → ev.refund_id ≢ "" → Posts ev (template_refund_succeeded ev)
  unfolding template_refund_succeeded base_journal
  refund_succeeded-Posts h r =
      let one =
        one_pair-IsSound ev c "J-REF-OK" ReferenceType.refund ev.refund_id
          (concat "Refund succeeded " ev.refund_id) refl _ _ "refund cleared"
          "refund deducted from PSP receivable" (clearing ev c) (receivable ev c h) in
      let two =
        two_pairs-IsSound ev c "J-REF-OK" ReferenceType.refund ev.refund_id
          (concat "Refund succeeded " ev.refund_id) refl _ _ "refund cleared"
          "refund deducted from PSP receivable" (clearing ev c) (receivable ev c h) _ _
          "J-REF-FEE: refund fee" "J-REF-FEE: refund fee revenue" (payable ev c) (revenue ev c) in
      elim (Bool-cases (has_fee ev)) [
        | inl f ↦ (
          _,
          rw (
            text_neq ev.refund_id r,
            require-of_HasProvider ev h,
            check-of_IsComplete ev c,
            f,
            validate-of_IsSound _ (two f),
          ),
          two f,
          refl,
          refl,
          refl,
        )
        | inr f ↦ (
          _,
          rw (
            text_neq ev.refund_id r,
            require-of_HasProvider ev h,
            check-of_IsComplete ev c,
            f,
            validate-of_IsSound _ one,
          ),
          one,
          refl,
          refl,
          refl,
        )
      ]

  dispute_opened-Posts : ev.dispute_id ≢ "" → Posts ev (template_dispute_opened ev)
  unfolding template_dispute_opened base_journal
  dispute_opened-Posts r =
      let one =
        one_pair-IsSound ev c "J-CB-OPEN" ReferenceType.dispute ev.dispute_id
          (concat "Dispute opened " ev.dispute_id) refl _ _ "disputed amount withheld"
          "chargeback reserve" (payable ev c) (reserve ev c) in
      let two =
        two_pairs-IsSound ev c "J-CB-OPEN" ReferenceType.dispute ev.dispute_id
          (concat "Dispute opened " ev.dispute_id) refl _ _ "disputed amount withheld"
          "chargeback reserve" (payable ev c) (reserve ev c) _ _ "chargeback fee charged"
          "chargeback fee revenue" (payable ev c) (chargeback_revenue ev c) in
      elim (Bool-cases (has_fee ev)) [
        | inl f ↦ (
          _,
          rw (text_neq ev.dispute_id r, check-of_IsComplete ev c, f, validate-of_IsSound _ (two f)),
          two f,
          refl,
          refl,
          refl,
        )
        | inr f ↦ (
          _,
          rw (text_neq ev.dispute_id r, check-of_IsComplete ev c, f, validate-of_IsSound _ one),
          one,
          refl,
          refl,
          refl,
        )
      ]

  dispute_won-Posts : (pol : Policy) → ev.dispute_id ≢ "" → Posts ev (template_dispute_won ev pol)
  unfolding template_dispute_won base_journal
  dispute_won-Posts pol r =
      let one =
        one_pair-IsSound ev c "J-CB-WON" ReferenceType.dispute ev.dispute_id
          (concat "Dispute won " ev.dispute_id) refl _ _ "reserve released"
          "disputed amount returned to merchant" (reserve ev c) (payable ev c) in
      let two =
        two_pairs-IsSound ev c "J-CB-WON" ReferenceType.dispute ev.dispute_id
          (concat "Dispute won " ev.dispute_id) refl _ _ "reserve released"
          "disputed amount returned to merchant" (reserve ev c) (payable ev c) _ _
          "J-CB-WON-FEE: chargeback fee refunded" "J-CB-WON-FEE: chargeback fee returned"
          (chargeback_revenue ev c) (payable ev c) in
      elim (Bool-cases (pol.refund_chargeback_fee_on_win && has_fee ev)) [
        | inl f ↦
            let w : has_fee ev ≡ true = ground (arith, f) in
            (
              _,
              rw (
                text_neq ev.dispute_id r,
                check-of_IsComplete ev c,
                f,
                validate-of_IsSound _ (two w),
              ),
              two w,
              refl,
              refl,
              refl,
            )
        | inr f ↦ (
          _,
          rw (text_neq ev.dispute_id r, check-of_IsComplete ev c, f, validate-of_IsSound _ one),
          one,
          refl,
          refl,
          refl,
        )
      ]

-- What each template wants of its event besides; no template, no event.
abbrev pub HasReferences : EventType → PaymentEvent → Type 0
HasReferences EventType.payment_captured ev =
    HasProvider ev × (ev.fee.amount_minor ≤ℤ ev.amount.amount_minor)
HasReferences EventType.refund_created ev = ev.refund_id ≢ ""
HasReferences EventType.refund_succeeded ev = HasProvider ev × (ev.refund_id ≢ "")
HasReferences EventType.refund_failed ev = ev.refund_id ≢ ""
HasReferences EventType.dispute_opened ev = ev.dispute_id ≢ ""
HasReferences EventType.dispute_won ev = ev.dispute_id ≢ ""
HasReferences EventType.dispute_lost ev = HasProvider ev × (ev.dispute_id ≢ "")
HasReferences _ ev = ⊥

by_type-Posts :
    (t : EventType) (ev : PaymentEvent) (pol : Policy)
    → IsComplete ev
    → HasReferences t ev
    → Posts ev (by_type t ev pol)
by_type-Posts EventType.payment_captured ev pol c r = capture-Posts ev c r.0 r.1
by_type-Posts EventType.refund_created ev pol c r = refund_pending-Posts ev c r
by_type-Posts EventType.refund_succeeded ev pol c r = refund_succeeded-Posts ev c r.0 r.1
by_type-Posts EventType.refund_failed ev pol c r = refund_failed-Posts ev c r
by_type-Posts EventType.dispute_opened ev pol c r = dispute_opened-Posts ev c r
by_type-Posts EventType.dispute_won ev pol c r = dispute_won-Posts ev c pol r
by_type-Posts EventType.dispute_lost ev pol c r = dispute_lost-Posts ev c r.0 r.1
by_type-Posts _ ev pol c r = absurd r

-- `TemplateFor` makes a journal of an event of a kind that has a template, if the event carries its
-- ids, a positive amount in a supported currency, a fee that is not negative and, unless it is 0, in
-- that currency, with amount and fee together below 2 ^ 63, and what its kind needs: a captured
-- payment the provider and a fee that is not above the amount (a larger fee is refused), a refund that
-- is created or failed its refund id, one that succeeded the provider and its refund id, a dispute
-- that is opened or won its dispute id, one that is lost the provider and its dispute id; a provider
-- is a name that may stand in an account code. The journal is sound and has the event's id, merchant
-- and mode.
pub template_for-Posts :
    (ev : PaymentEvent) (pol : Policy)
    → IsComplete ev
    → HasReferences ev.event_type ev
    → Posts ev (template_for ev pol)
unfolding template_for
template_for-Posts ev pol c r = by_type-Posts ev.event_type ev pol c r
