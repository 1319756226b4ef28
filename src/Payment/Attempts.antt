-- ===== src/Payment/Attempts.antt =====
-- internal/payment/domain/payment.go: the attempts of a payment.
use payment_gateway.Base.{
  String, Bool, true, false, Option, none, some, List, [], ◌∷◌, ◌++◌, ◌+◌, not, length, find,
}
use payment_gateway.Base.Method.{Method, raise_if, get, modify, pure, ◌>>=◌, ◌>>◌}
use payment_gateway.Payment.Status.{Status, AttemptStatus, is_open, status_eq}
use payment_gateway.Payment.Attempt.{new_attempt}
use payment_gateway.Payment.Model.{
  Payment, Attempt, Time, PaymentError, invalid_transition, operation_in_progress,
}

abbrev pub last? : List Attempt → Option Attempt
last? [] = none
last? (a ∷ []) = some a
last? (a ∷ b ∷ rest) = last? (b ∷ rest)

-- `CurrentAttempt`
abbrev pub current_attempt : Payment → Option Attempt
current_attempt p = last? p.attempts

-- `OpenAttempt`
abbrev pub open_attempt : Payment → Option Attempt
open_attempt p = find (λ a. is_open a.status) p.attempts

abbrev is_approved : AttemptStatus → Bool
is_approved AttemptStatus.approved = true
is_approved _ = false

-- `WinningAttempt`
abbrev pub winning_attempt : Payment → Option Attempt
winning_attempt p = find (λ a. is_approved a.status) p.attempts

abbrev is_some : Option Attempt → Bool
is_some (some _) = true
is_some none = false

-- `StartAttempt`; `id` is the text of a fresh UUID.
unfoldable pub start_attempt : String → String → String → Time → Method Payment PaymentError Attempt
unfolding new_attempt
start_attempt id provider route_reason now = do
  p ← get
  raise_if (not (status_eq p.status Status.created)) invalid_transition
  raise_if (is_some (open_attempt p)) operation_in_progress
  let a = new_attempt id p provider route_reason (length p.attempts + 1) now
  modify (λ q. record q { attempts = q.attempts ++ (a ∷ []); selected_provider = provider })
  pure a
