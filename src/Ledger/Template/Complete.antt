-- ===== src/Ledger/Template/Complete.antt =====
-- The events that the templates of internal/ledger/domain/template.go accept.
use payment_gateway.Base.{
  String, true, false, ◌≡◌, ◌≢◌, inl, inr, arith, ◌+◌, ◌<◌, ◌^◌, sym, ◌∙◌, Bool-cases, text_eq,
  text_eq_iff, ap,
}
use payment_gateway.Base.Action.{Result, ok}
use payment_gateway.Base.Int.{pos, pos_part, ◌<ℤ◌, ◌≤ℤ◌}
use payment_gateway.Ids.{nil_uuid}
use payment_gateway.Money
use payment_gateway.Money.{Money}
use payment_gateway.Money.Currency.{is_supported_currency}
use payment_gateway.Ledger.Chart.{is_qualifier, code_for, LedgerError}
use payment_gateway.Ledger.Journal.{Journal}
use payment_gateway.Ledger.Journal.Sound.{IsSound}
use payment_gateway.Ledger.Event.{PaymentEvent}
use payment_gateway.Ledger.Posting.{check_event, require_provider}

-- An event that carries what every template wants.
pub record IsComplete (ev : PaymentEvent) : Type 0 where
  pub event_id : ev.event_id ≢ nil_uuid
  pub merchant_id : ev.merchant_id ≢ nil_uuid
  pub payment_id : ev.payment_id ≢ ""
  pub supported : is_supported_currency ev.amount.currency ≡ true
  pub positive : pos 0 <ℤ ev.amount.amount_minor
  pub fee_nonneg : pos 0 ≤ℤ ev.fee.amount_minor
  pub fee_currency : pos 0 <ℤ ev.fee.amount_minor → ev.fee.currency ≡ ev.amount.currency
  pub bounded : pos_part ev.amount.amount_minor + pos_part ev.fee.amount_minor < 2 ^ 63

pub text_neq : (s : String) → s ≢ "" → text_eq s "" ≡ false
text_neq s h = ground (arith, text_eq_iff s "")

pub check-of_IsComplete : (ev : PaymentEvent) → IsComplete ev → check_event ev ≡ ok tt
unfolding check_event Money.validate
check-of_IsComplete ev c =
    ground (arith, text_eq_iff ev.payment_id "", text_eq_iff ev.fee.currency ev.amount.currency)

-- A provider that may stand in an account code.
abbrev pub HasProvider : PaymentEvent → Type 0
HasProvider ev = is_qualifier ev.provider ≡ true

is_qualifier-nonempty : is_qualifier "" ≢ true
unfolding is_qualifier
is_qualifier-nonempty e = ground arith

-- A qualifier is not empty.
pub nonempty_of_qualifier : (q : String) → is_qualifier q ≡ true → text_eq q "" ≡ false
nonempty_of_qualifier q h = elim (Bool-cases (text_eq q "")) [
  | inl e ↦ absurd (is_qualifier-nonempty (sym (ap is_qualifier ((text_eq_iff q "").0 e)) ∙ h))
  | inr e ↦ e
]

pub require-of_HasProvider : (ev : PaymentEvent) → HasProvider ev → require_provider ev ≡ ok tt
unfolding require_provider code_for
require-of_HasProvider ev h = ground (arith, h, nonempty_of_qualifier ev.provider h)

-- The result is a sound journal, and it is the event's.
abbrev pub Posts : PaymentEvent → Result LedgerError Journal → Type 0
Posts ev r =
    (j : Journal) × (r ≡ ok j)
    × IsSound j
    × (j.event_id ≡ ev.event_id)
    × (j.merchant_id ≡ ev.merchant_id)
    × (j.livemode ≡ ev.livemode)
