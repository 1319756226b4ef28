-- ===== src/Payment/Rules.antt =====
-- What each operation of a payment does: it fails and changes nothing, or its guards hold and it
-- changes exactly the fields that are named, with one event that carries the next version.
pub mod Capturing
pub mod Ending
pub mod Refunds
pub mod Failover
pub mod Settling
use payment_gateway.Base.{◌≡◌, ◌≢◌, ◌+◌, some, refl, ap}
use payment_gateway.Base.Action.{Result, ok, err}
use payment_gateway.Payment.Status.{Status}
use payment_gateway.Payment.Model.{Payment, Event, EventType}

-- How a call on `s` ended: an error left `s` alone, and a value and a new state meet `Q`.
abbrev pub Outcome : {S E A : Type 0} → S → (A → S → Type 0) → Result E A × S → Type 0
Outcome s Q (ok a, s') = Q a s'
Outcome s Q (err _, s') = s' ≡ s

-- The event that `emit` makes of a move of `p` to a new state.
abbrev pub Announces : EventType → Status → Payment → Event → Type 0
Announces typ to p ev =
    (ev.event_type ≡ typ)
    × (ev.from_status ≡ some p.status)
    × (ev.to_status ≡ to)
    × (ev.seq ≡ p.version + 1)

pub Outcome-map :
    {S E A : Type 0} (Q R : A → S → Type 0) (s : S) (x : Result E A × S)
    → ((a : A) (s' : S) → Q a s' → R a s')
    → Outcome s Q x
    → Outcome s R x
Outcome-map Q R s (ok a, s') f h = f a s' h
Outcome-map Q R s (err e, s') f h = h

-- A call whose success is decided by `C`: with `C` it succeeds, as `N` says, and without `C` it fails
-- and leaves the state alone.
abbrev pub Decides {ℓ κ} :
    {S E A : Type 0} → Type ℓ → (A → S → Type κ) → S → Result E A × S → Type (ℓ ⊔ κ)
Decides {S} {E} {A} C N s x =
    (C → (a : A) × (s' : S) × (x ≡ (ok a, s')) × N a s') × (¬ C → (e : E) × (x ≡ (err e, s)))

pub Decides-of_Outcome :
    {S E A : Type 0} (C : Type 0) (N : A → S → Type 0) (s : S) (x : Result E A × S)
    → Outcome s (λ a s'. C × N a s') x
    → (C → (e : E) → x.0 ≢ err e)
    → Decides C N s x
Decides-of_Outcome C N s (ok a, s') h g = (λ c. (a, s', refl, h.1), λ n. absurd (n h.0))
Decides-of_Outcome C N s (err e, s') h g =
    (λ c. absurd (g c e refl), λ n. (e, ap (λ t. (err e, t)) h))
