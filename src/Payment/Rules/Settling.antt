-- ===== src/Payment/Rules/Settling.antt =====
-- `Succeed` and `Fail` of internal/payment/domain/refund.go: a refund is settled once.
use payment_gateway.Base.{◌≡◌, refl, ◌∙◌, ap, String, false, arith, List, [], ◌∷◌}
use payment_gateway.Payment.Model.{Refund, Time}
use payment_gateway.Payment.Refund.{succeed, fail, is_pending}

-- One report of the provider on a refund.
pub data Report : Type 0 where
  succeeded : String → Time → Report
  failed : String → String → Time → Report

unfoldable pub settle : Report → Refund → Refund
settle (Report.succeeded provider_ref now) r = (succeed provider_ref now r).1
settle (Report.failed code message now) r = (fail code message now r).1

unfoldable pub settle_all : List Report → Refund → Refund
settle_all [] r = r
settle_all (c ∷ cs) r = settle_all cs (settle c r)

-- A refund that is not pending stays as it is.
settle_again : (c : Report) (r : Refund) → is_pending r.status ≡ false → settle c r ≡ r
unfolding settle succeed fail
settle_again (Report.succeeded provider_ref now) r h = ground (arith, h)
settle_again (Report.failed code message now) r h = ground (arith, h)

settle_all-settled :
    (cs : List Report) (r : Refund) → is_pending r.status ≡ false → settle_all cs r ≡ r
unfolding settle_all
settle_all-settled [] r h = refl
settle_all-settled (c ∷ cs) r h =
    ap (settle_all cs) (settle_again c r h) ∙ settle_all-settled cs r h

settle_closes : (c : Report) (r : Refund) → is_pending (settle c r).status ≡ false
unfolding settle succeed fail
settle_closes (Report.succeeded provider_ref now) r = ground arith
settle_closes (Report.failed code message now) r = ground arith

-- Of any sequence of reports on a refund, `Succeed` or `Fail`, only the first counts: the others find
-- it no longer pending and change no field.
pub settle_all-first :
    (c : Report) (cs : List Report) (r : Refund) → settle_all (c ∷ cs) r ≡ settle c r
unfolding settle_all
settle_all-first c cs r = settle_all-settled cs (settle c r) (settle_closes c r)
