-- ===== src/Payment/Trace/History.antt =====
-- The events of a payment are its history: replayed from the start they give its state and version.
use payment_gateway.Base.{
  ◌∙◌, ◌≡◌, ◌+◌, ℕ, Bool, true, false, ◌||◌, ◌&&◌, ◌==◌, arith, refl, Option, some, none, List, [],
  ◌∷◌, if◌then◌else◌,
}
use payment_gateway.Payment.Status.{Status, status_eq, can_transition, is_terminal}
use payment_gateway.Payment.Model.{Payment, Event}
use payment_gateway.Payment.Attempts
use payment_gateway.Payment.Rules.Capturing.{require_action_lem, authorize_lem, capture_lem}
use payment_gateway.Payment.Rules.Ending.{void_lem, fail_lem, expire_lem}
use payment_gateway.Payment.Rules.Refunds.{
  reserve_refund_lem, mark_refunded_lem, release_refund_lem,
}
use payment_gateway.Payment.Trace.{Call, call, run, log, cons_event}

-- An independent reader of the log: it knows a state and a version, accepts an event that starts
-- from that state, has the next number, and stays or moves by the table, and refuses any other.
abbrev is_from : Option Status → Status → Bool
is_from none s = false
is_from (some t) s = status_eq t s

abbrev accepts : Status → ℕ → Event → Bool
accepts s n ev =
    is_from ev.from_status s
    && ev.seq == n + 1
    && (status_eq s ev.to_status || can_transition s ev.to_status)

unfoldable pub replay : Status → ℕ → List Event → Option (Status × ℕ)
replay s n [] = some (s, n)
replay s n (ev ∷ evs) =
    let rest = replay ev.to_status ev.seq evs in if accepts s n ev then rest else none

-- What a call's event says of the payment before and after it.
abbrev pub Reports : Payment → Option Event × Payment → Type 0
Reports p (none, p') = (p'.status ≡ p.status) × (p'.version ≡ p.version)
Reports p (some ev, p') =
    (accepts p.status p.version ev ≡ true) × (ev.to_status ≡ p'.status) × (p'.version ≡ ev.seq)

call-Reports : (c : Call) (p : Payment) → Reports p (call c p)
unfolding call can_transition Attempts.start_attempt
call-Reports (Call.start_attempt id provider reason now) p = ground arith
call-Reports (Call.require_action ref expires now) p =
    ground (arith, require_action_lem ref expires now p)
call-Reports (Call.authorize ap now) p = ground (arith, authorize_lem ap now p)
call-Reports (Call.capture amount fee now) p = ground (arith, capture_lem amount fee now p)
call-Reports (Call.void reason detail now) p = ground (arith, void_lem reason detail now p)
call-Reports (Call.fail f now) p = ground (arith, fail_lem f now p)
call-Reports (Call.expire now) p = ground (arith, expire_lem now p)
call-Reports (Call.reserve_refund r now) p = ground (arith, reserve_refund_lem r now p)
call-Reports (Call.mark_refunded r now) p = ground (arith, mark_refunded_lem r now p)
call-Reports (Call.release_refund r now) p = ground (arith, release_refund_lem r now p)

-- One event of a call, in front of the events of the calls that follow it.
replay-cons :
    (p : Payment) (o : Option Event) (p' : Payment) (evs : List Event)
    → Reports p (o, p')
    → replay p.status p.version (cons_event o evs) ≡ replay p'.status p'.version evs
unfolding replay
replay-cons p none p' evs h = rw (h.0, h.1)
replay-cons p (some ev) p' evs h = rw (h.0, h.1, ← h.2)

-- Read in order, the events of any sequence of calls are accepted one after the other, and end in
-- the state and the version that the payment has after the calls.
pub replay-log :
    (cs : List Call) (p : Payment)
    → replay p.status p.version (log cs p) ≡ some ((run cs p).status, (run cs p).version)
unfolding log run
replay-log [] p = unfold replay in refl
replay-log (c ∷ cs) p =
    let (o, p') = call c p in
    rw (replay-cons p o p' (log cs p') (call-Reports c p)) (replay-log cs p')

stays_of_terminal :
    (p : Payment) (o : Option Event) (p' : Payment)
    → Reports p (o, p')
    → is_terminal p.status ≡ true
    → p'.status ≡ p.status
unfolding can_transition
stays_of_terminal p none p' h t = h.0
stays_of_terminal p (some ev) p' h t = ground arith

-- No sequence of calls leaves a terminal state.
pub terminal_absorbs :
    (cs : List Call) (p : Payment) → is_terminal p.status ≡ true → (run cs p).status ≡ p.status
unfolding run
terminal_absorbs [] p t = refl
terminal_absorbs (c ∷ cs) p t =
    let (o, p') = call c p in
    let e = stays_of_terminal p o p' (call-Reports c p) t in terminal_absorbs cs p' (rw e t) ∙ e
