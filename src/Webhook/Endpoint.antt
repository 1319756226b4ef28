-- ===== src/Webhook/Endpoint.antt =====
-- internal/webhook/domain/endpoint.go: which endpoints an event is delivered to.
pub mod FanOut
pub mod Wildcard
use Prim.Native.Char.{code}
use payment_gateway.Base.{
  ℕ, suc, ◌+◌, ◌<◌, ◌==◌, ◌&&◌, ◌||◌, not, ltb, leb, String, Bool, true, false, Option, some, none,
  List, [], ◌∷◌, text_eq, bool_eq, any, if◌then◌else◌,
}
use payment_gateway.Base.Ascii.{trim_space, has_prefix}
use payment_gateway.Base.Clock.{Time}
use payment_gateway.Ids.{Uuid}
use payment_gateway.Webhook.Delivery.{Event, Delivery, new_delivery}

pub data EndpointStatus : Type 0 where
  enabled disabled auto_disabled deleted : EndpointStatus

pub record Endpoint : Type 0 where
  pub id : Uuid
  pub merchant_id : Uuid
  pub url : String
  pub secrets : List String
  pub enabled_events : List String
  pub status : EndpointStatus
  pub livemode : Bool

-- `Enabled`; `none` is a nil endpoint.
abbrev is_enabled_status : EndpointStatus → Bool
is_enabled_status EndpointStatus.enabled = true
is_enabled_status _ = false

abbrev pub is_enabled : Option Endpoint → Bool
is_enabled none = false
is_enabled (some e) = is_enabled_status e.status

-- What stands before `.*` at the end of a pattern, with the dot: `strings.HasSuffix` with `.*` and
-- then `strings.TrimSuffix` of `*`.
abbrev pub wildcard : String → Option String
wildcard String.[] = none
wildcard (String.◌∷◌ c s) =
    let rest = wildcard s in
    if text_eq (String.◌∷◌ c s) ".*"
    then some "."
    else elim rest [ some p ↦ some (String.◌∷◌ c p) | none ↦ none ]

abbrev matches_wildcard : Option String → String → Bool
matches_wildcard none event_type = false
matches_wildcard (some p) event_type = has_prefix event_type p

-- The `switch` of `Subscribes` on one pattern.
unfoldable pub matches : String → String → Bool
matches event_type pattern =
    let pat = trim_space pattern in
    text_eq pat "*" || text_eq pat event_type || matches_wildcard (wildcard pat) event_type

abbrev pub is_empty : List String → Bool
is_empty [] = true
is_empty (_ ∷ _) = false

-- `Subscribes`
unfoldable pub subscribes : Endpoint → String → Bool
unfolding matches
subscribes e event_type =
    if is_empty e.enabled_events then true else any (matches event_type) e.enabled_events

-- `Accepts`
unfoldable pub accepts : Option Endpoint → Event → Bool
unfolding subscribes
accepts none ev = false
accepts (some e) ev =
    is_enabled (some e) && bool_eq e.livemode ev.livemode && subscribes e ev.event_type

-- `ActiveSecrets`
unfoldable pub active_secrets : List String → List String
active_secrets [] = []
active_secrets (s ∷ ss) =
    let rest = active_secrets ss in if not (text_eq s "") then s ∷ rest else rest

-- The loop of `FanOut`, after `n` deliveries; `fresh` and `clock` are the ids and the times that the
-- calls for the deliveries return, in order.
unfoldable pub fan_out_from :
    (ℕ → Uuid) → (ℕ → Time) → ℕ → Event → List (Option Endpoint) → List Delivery
fan_out_from fresh clock n ev [] = []
fan_out_from fresh clock n ev (none ∷ es) = fan_out_from fresh clock n ev es
fan_out_from fresh clock n ev (some e ∷ es) =
    let skip = fan_out_from fresh clock n ev es in
    let rest = fan_out_from fresh clock (n + 1) ev es in
    if accepts (some e) ev then new_delivery (fresh n) ev e.id (clock n) ∷ rest else skip

-- `FanOut`
unfoldable pub fan_out : (ℕ → Uuid) → (ℕ → Time) → Event → List (Option Endpoint) → List Delivery
unfolding fan_out_from
fan_out fresh clock ev es = fan_out_from fresh clock 0 ev es
