-- ===== src/Payment/Rules/Failover.antt =====
-- internal/payment/domain/attempt.go and provider_error.go: when a failed attempt may be followed by
-- one at another provider.
use payment_gateway.Base.{
  String, true, ◌≡◌, ◌↔◌, refl, arith, text_eq_iff, subst, sym, ◌⊎◌, inl, inr,
}
use payment_gateway.Payment.ProviderError.{Category, can_failover_decline}
use payment_gateway.Payment.Model.{Attempt, Time}
use payment_gateway.Payment.Attempt.{mark_failed, can_failover}

-- The failures after which another provider may be tried: the provider was not available, or the
-- issuer declined for one of three reasons that pass.
pub data AllowsFailover : Category → String → Type 0 where
  unavailable : (code : String) → AllowsFailover Category.provider_unavailable code
  rate_limited : (code : String) → AllowsFailover Category.provider_rate_limited code
  misconfigured : (code : String) → AllowsFailover Category.provider_config_error code
  processing_error : AllowsFailover Category.declined_soft "processing_error"
  issuer_unavailable : AllowsFailover Category.declined_soft "issuer_unavailable"
  try_again_later : AllowsFailover Category.declined_soft "try_again_later"

-- The three codes for which a soft decline may go to another provider.
abbrev IsPassing : String → Type 0
IsPassing code =
    (code ≡ "processing_error") ⊎ (code ≡ "issuer_unavailable") ⊎ (code ≡ "try_again_later")

soft_iff :
    (code : String) → (can_failover_decline Category.declined_soft code ≡ true) ↔ IsPassing code
unfolding can_failover_decline
soft_iff code = (
  λ h. ground (
    arith,
    text_eq_iff "processing_error" code,
    text_eq_iff "issuer_unavailable" code,
    text_eq_iff "try_again_later" code,
  ),
  λ h. ground (
    arith,
    text_eq_iff "processing_error" code,
    text_eq_iff "issuer_unavailable" code,
    text_eq_iff "try_again_later" code,
  ),
)

AllowsFailover-of_passing :
    (code : String) → IsPassing code → AllowsFailover Category.declined_soft code
AllowsFailover-of_passing code (inl e) =
    subst (AllowsFailover Category.declined_soft) (sym e) AllowsFailover.processing_error
AllowsFailover-of_passing code (inr (inl e)) =
    subst (AllowsFailover Category.declined_soft) (sym e) AllowsFailover.issuer_unavailable
AllowsFailover-of_passing code (inr (inr e)) =
    subst (AllowsFailover Category.declined_soft) (sym e) AllowsFailover.try_again_later

module _ (message provider_ref : String) (now : Time) (a : Attempt) where
  allowed :
      (cat : Category) (code : String)
      → can_failover (mark_failed cat code message provider_ref now a) ≡ true
      → AllowsFailover cat code
  unfolding can_failover mark_failed can_failover_decline
  allowed Category.declined_soft code h = AllowsFailover-of_passing code ((soft_iff code).0 h)
  allowed Category.provider_unavailable code h = AllowsFailover.unavailable code
  allowed Category.provider_rate_limited code h = AllowsFailover.rate_limited code
  allowed Category.provider_config_error code h = AllowsFailover.misconfigured code
  allowed _ code h = absurd (ground (arith, h))

  allows :
      (cat : Category) (code : String)
      → AllowsFailover cat code
      → can_failover (mark_failed cat code message provider_ref now a) ≡ true
  unfolding can_failover mark_failed can_failover_decline
  allows _ _ (AllowsFailover.unavailable c) = refl
  allows _ _ (AllowsFailover.rate_limited c) = refl
  allows _ _ (AllowsFailover.misconfigured c) = refl
  allows _ _ AllowsFailover.processing_error = refl
  allows _ _ AllowsFailover.issuer_unavailable = refl
  allows _ _ AllowsFailover.try_again_later = refl

-- After `MarkFailed` an attempt may fail over exactly when the provider was unavailable, limited the
-- rate or was misconfigured, or when the decline was soft with one of the three passing codes;
-- hard declines, fraud, authentication and every unknown outcome stay with the provider.
pub can_failover_iff :
    (cat : Category) (code message provider_ref : String) (now : Time) (a : Attempt)
    → (can_failover (mark_failed cat code message provider_ref now a) ≡ true)
      ↔ AllowsFailover cat code
can_failover_iff cat code message provider_ref now a =
    (allowed message provider_ref now a cat code, allows message provider_ref now a cat code)
