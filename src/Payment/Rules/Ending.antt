-- ===== src/Payment/Rules/Ending.antt =====
-- `Void`, `Fail` and `Expire` of internal/payment/domain/payment.go.
use payment_gateway.Base.{◌≡◌, ◌⊎◌, String, arith, none, some, ◌+◌}
use payment_gateway.Payment.Status.{Status, VoidReason, can_transition}
use payment_gateway.Payment.ProviderError.{Failure}
use payment_gateway.Payment.Model.{Payment, EventType, Time}
use payment_gateway.Payment.Authorization.{void, fail, expire, default_reason, complete_failure}
use payment_gateway.Payment.Rules.{Outcome, Announces}

pub void_lem :
    (reason : VoidReason) (detail : String) (now : Time) (p : Payment)
    → Outcome p
        (λ ev p'.
          ((p.status ≡ Status.requires_action) ⊎ (p.status ≡ Status.authorized))
          × Announces EventType.payment_voided Status.voided p ev
          × (p' ≡ record p {
            status = Status.voided;
            version = p.version + 1;
            updated_at = now;
            void_reason = some (default_reason reason);
            voided_at = some now;
            expires_at = none;
          }))
        (void reason detail now p)
unfolding void can_transition
void_lem reason detail now p = ground arith

pub fail_lem :
    (f : Failure) (now : Time) (p : Payment)
    → Outcome p
        (λ ev p'.
          ((p.status ≡ Status.created) ⊎ (p.status ≡ Status.requires_action))
          × Announces EventType.payment_failed Status.failed p ev
          × (p' ≡ record p {
            status = Status.failed;
            version = p.version + 1;
            updated_at = now;
            failure = some (complete_failure f p);
            expires_at = none;
          }))
        (fail f now p)
unfolding fail can_transition
fail_lem f now p = ground arith

pub expire_lem :
    (now : Time) (p : Payment)
    → Outcome p
        (λ ev p'.
          ((p.status ≡ Status.created) ⊎ (p.status ≡ Status.requires_action))
          × Announces EventType.payment_expired Status.expired p ev
          × (p' ≡ record p {
            status = Status.expired;
            version = p.version + 1;
            updated_at = now;
            expires_at = none;
          }))
        (expire now p)
unfolding expire can_transition
expire_lem now p = ground arith
