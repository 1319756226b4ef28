-- ===== src/Payment/Invariant/Keeps.antt =====
-- Every operation on a payment keeps the invariant.
use payment_gateway.Base.{◌≡◌, String, arith}
use payment_gateway.Base.Int.{ℤ, pos, +ℤ_parts}
use payment_gateway.Money.{Money}
use payment_gateway.Money.Arithmetic.{le_of_not_greater}
use payment_gateway.Payment.Status.{VoidReason}
use payment_gateway.Payment.ProviderError.{Failure}
use payment_gateway.Payment.Model.{Payment, Time, AuthorizeParams}
use payment_gateway.Payment.Authorization.{require_action, authorize, capture, void, fail, expire}
use payment_gateway.Payment.Rules.Capturing.{require_action_lem, authorize_lem, capture_lem}
use payment_gateway.Payment.Rules.Ending.{void_lem, fail_lem, expire_lem}
use payment_gateway.Payment.Invariant.{IsValid}

pub require_action-IsValid :
    (ref : String) (expires now : Time) (p : Payment)
    → IsValid p
    → IsValid (require_action ref expires now p).1
require_action-IsValid ref expires now p v = ground (arith, require_action_lem ref expires now p)

-- Nothing is refunded or reserved where nothing was captured.
none_reserved :
    (p : Payment)
    → IsValid p
    → p.amount_captured.amount_minor ≡ pos 0
    → (p.amount_refunded.amount_minor ≡ pos 0) × (p.amount_refund_pending.amount_minor ≡ pos 0)
none_reserved p v e =
    ground (arith, +ℤ_parts p.amount_refunded.amount_minor p.amount_refund_pending.amount_minor)

pub authorize-IsValid :
    (ap : AuthorizeParams) (now : Time) (p : Payment) → IsValid p → IsValid (authorize ap now p).1
authorize-IsValid ap now p v = ground (arith, authorize_lem ap now p, none_reserved p v)

pub capture-IsValid :
    (amount : Money) (fee : ℤ) (now : Time) (p : Payment)
    → IsValid p
    → IsValid (capture amount fee now p).1
capture-IsValid amount fee now p v = ground (
  arith,
  capture_lem amount fee now p,
  none_reserved p v,
  le_of_not_greater amount p.amount_authorized,
  +ℤ_parts p.amount_refunded.amount_minor p.amount_refund_pending.amount_minor,
)

pub void-IsValid :
    (reason : VoidReason) (detail : String) (now : Time) (p : Payment)
    → IsValid p
    → IsValid (void reason detail now p).1
void-IsValid reason detail now p v = ground (arith, void_lem reason detail now p)

pub fail-IsValid : (f : Failure) (now : Time) (p : Payment) → IsValid p → IsValid (fail f now p).1
fail-IsValid f now p v = ground (arith, fail_lem f now p)

pub expire-IsValid : (now : Time) (p : Payment) → IsValid p → IsValid (expire now p).1
expire-IsValid now p v = ground (arith, expire_lem now p)
