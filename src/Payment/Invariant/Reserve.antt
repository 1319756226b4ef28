-- ===== src/Payment/Invariant/Reserve.antt =====
-- When `ReserveRefund` of internal/payment/domain/payment.go lets a refund in, in exact numbers, and
-- what `ReleaseRefund` undoes.
use payment_gateway.Base.{◌≡◌, ◌≢◌, false, arith, ◌+◌, text_eq_iff, sym, ◌∙◌, ap}
use payment_gateway.Base.Action.{ok, err}
use payment_gateway.Base.Int.{pos, ◌<ℤ◌, ◌≤ℤ◌, ◌+ℤ◌, ◌-ℤ◌, +ℤ_parts, -ℤ_parts, IsInt64, int_laws}
use payment_gateway.Money
use payment_gateway.Money.{Money}
use payment_gateway.Money.Arithmetic.{
  le_of_not_greater, add-ok, greater_than_iff, add_exact_or_overflow, sub_exact_or_negative,
}
use payment_gateway.Payment.Model.{Payment, PaymentError, Event, Refund, EventType, Time}
use payment_gateway.Payment.Refunding.{
  reserve_refund, release_refund, available_to_refund, can_refund,
}
use payment_gateway.Payment.Rules.{Outcome-map, Announces, Decides, Decides-of_Outcome}
use payment_gateway.Payment.Rules.Refunds.{Reserved, reserve_refund_lem}
use payment_gateway.Payment.Invariant.{IsValid}
use payment_gateway.Payment.Invariant.Refunds.{available_exact, pending-IsInt64, captured-IsInt64}

-- A refund that fits: the state allows it, and with what was refunded and what is reserved it does
-- not exceed what was captured.
pub record Fits (r : Refund) (p : Payment) : Type 0 where
  pub refundable : can_refund p.status ≡ ok tt
  pub same_currency : r.amount.currency ≡ p.amount.currency
  pub positive : pos 0 <ℤ r.amount.amount_minor
  pub within :
      ((p.amount_refunded.amount_minor +ℤ p.amount_refund_pending.amount_minor)
        +ℤ r.amount.amount_minor)
      ≤ℤ p.amount_captured.amount_minor

-- What a reservation does: the event, and the payment after it.
abbrev pub Reserves : Refund → Time → Payment → Event → Payment → Type 0
Reserves r now p ev p' =
    Announces EventType.refund_created p.status p ev
    × (p' ≡ record p {
      version = p.version + 1;
      updated_at = now;
      amount_refund_pending = record p.amount_refund_pending {
        amount_minor = p.amount_refund_pending.amount_minor +ℤ r.amount.amount_minor;
      };
    })

module _ (r : Refund) (now : Time) (p : Payment) (i : IsInt64 r.amount.amount_minor)
    (v : IsValid p) where
  -- The amounts as whole numbers.
  not_greater : Fits r p → Money.greater_than r.amount (available_to_refund p) ≡ false
  not_greater f = ground (
    arith,
    greater_than_iff r.amount (available_to_refund p),
    available_exact p v,
    +ℤ_parts p.amount_refunded.amount_minor p.amount_refund_pending.amount_minor,
    +ℤ_parts (p.amount_refunded.amount_minor +ℤ p.amount_refund_pending.amount_minor)
        r.amount.amount_minor,
    -ℤ_parts p.amount_captured.amount_minor p.amount_refunded.amount_minor,
    -ℤ_parts (p.amount_captured.amount_minor -ℤ p.amount_refunded.amount_minor)
        p.amount_refund_pending.amount_minor,
  )

  room_for_pending :
      Fits r p → IsInt64 (p.amount_refund_pending.amount_minor +ℤ r.amount.amount_minor)
  room_for_pending f = ground (
    arith,
    v,
    f,
    captured-IsInt64 p v,
    +ℤ_parts p.amount_refunded.amount_minor p.amount_refund_pending.amount_minor,
    +ℤ_parts (p.amount_refunded.amount_minor +ℤ p.amount_refund_pending.amount_minor)
        r.amount.amount_minor,
    +ℤ_parts p.amount_refund_pending.amount_minor r.amount.amount_minor,
  )

  add_pending :
      Fits r p
      → Money.add p.amount_refund_pending r.amount
        ≡ ok (record p.amount_refund_pending {
          amount_minor = p.amount_refund_pending.amount_minor +ℤ r.amount.amount_minor;
        })
  add_pending f =
      (add_exact_or_overflow p.amount_refund_pending r.amount (v.pending.0 ∙ sym f.same_currency)
          (pending-IsInt64 p v) i).0
        (room_for_pending f)

  reserve-ne-err : Fits r p → (e : PaymentError) → (reserve_refund r now p).0 ≢ err e
  unfolding reserve_refund
  reserve-ne-err f e h =
      ground
        (arith, f, not_greater f, add_pending f, text_eq_iff r.amount.currency p.amount.currency)

  Fits-of_Reserved :
      (ev : Event) (p' : Payment) → Reserved r now p ev p' → Fits r p × Reserves r now p ev p'
  Fits-of_Reserved ev p' h =
      let within = le_of_not_greater r.amount (available_to_refund p) in
      let added =
        add-ok p.amount_refund_pending r.amount p'.amount_refund_pending (pending-IsInt64 p v) i in
      ground (
        arith,
        v,
        within,
        added,
        available_exact p v,
        +ℤ_parts p.amount_refunded.amount_minor p.amount_refund_pending.amount_minor,
        +ℤ_parts (p.amount_refunded.amount_minor +ℤ p.amount_refund_pending.amount_minor)
            r.amount.amount_minor,
        -ℤ_parts p.amount_captured.amount_minor p.amount_refunded.amount_minor,
        -ℤ_parts (p.amount_captured.amount_minor -ℤ p.amount_refunded.amount_minor)
            p.amount_refund_pending.amount_minor,
      )

  -- On a valid payment and an int64 amount `ReserveRefund` goes ahead exactly when the state is one that
  -- may be refunded, the currency is the payment's, the amount is positive, and refunded, reserved and
  -- new amount together do not exceed the captured amount; it then adds the amount to what is reserved,
  -- and otherwise changes nothing.
  pub reserve_refund-Decides : Decides (Fits r p) (Reserves r now p) p (reserve_refund r now p)
  reserve_refund-Decides =
      Decides-of_Outcome (Fits r p) (Reserves r now p) p (reserve_refund r now p)
        (Outcome-map (Reserved r now p) (λ ev p'. Fits r p × Reserves r now p ev p') p
          (reserve_refund r now p) Fits-of_Reserved (reserve_refund_lem r now p))
        reserve-ne-err

module _ (r : Refund) (now later : Time) (p : Payment) (i : IsInt64 r.amount.amount_minor)
    (v : IsValid p) (f : Fits r p) where
  abbrev pending' : Money
  pending' = record p.amount_refund_pending {
    amount_minor = p.amount_refund_pending.amount_minor +ℤ r.amount.amount_minor;
  }

  back :
      (p.amount_refund_pending.amount_minor +ℤ r.amount.amount_minor) -ℤ r.amount.amount_minor
      ≡ p.amount_refund_pending.amount_minor
  back = grind int_laws

  sub_pending : Money.sub pending' r.amount ≡ ok p.amount_refund_pending
  sub_pending =
      let amount_le : r.amount.amount_minor ≤ℤ pending'.amount_minor =
        ground (
          arith,
          v.pending.1,
          +ℤ_parts p.amount_refund_pending.amount_minor r.amount.amount_minor,
        ) in
      let exact =
        sub_exact_or_negative pending' r.amount (v.pending.0 ∙ sym f.same_currency)
          (room_for_pending r now p i v f) (ground (arith, f.positive)) in
      (exact.0 amount_le).0
      ∙ ap (λ n. ok (record p.amount_refund_pending { amount_minor = n })) back

  released :
      (release_refund r later (record p {
        version = p.version + 1;
        updated_at = now;
        amount_refund_pending = pending';
      })).1
      ≡ record p { version = p.version + 2; updated_at = later }
  unfolding release_refund
  released = ground (arith, sub_pending)

  -- Releasing the refund that a valid payment has just reserved gives the payment back as it was, but
  -- for its version, which is 2 higher, and the time of the change.
  pub release_refund-reserve_refund :
      (release_refund r later (reserve_refund r now p).1).1
      ≡ record p { version = p.version + 2; updated_at = later }
  release_refund-reserve_refund =
      let (ev, p', e, (an, q)) = (reserve_refund-Decides r now p i v).0 f in rw (e, q) released
