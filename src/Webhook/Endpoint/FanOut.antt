-- ===== src/Webhook/Endpoint/FanOut.antt =====
-- `Subscribes` and `FanOut` of internal/webhook/domain/endpoint.go, described apart from the code.
use payment_gateway.Base.{
  ◌≡◌, ◌↔◌, ◌⊎◌, inl, inr, refl, ap, ◌∙◌, arith, ℕ, ◌+◌, String, true, Option, some, none,
  Option-cases, Bool-cases, List, [], ◌∷◌, All, map, concat, text_eq, text_eq_iff, if◌then◌else◌,
  any, Member, bool_eq, Bool,
}
use payment_gateway.Base.Ascii.{trim_space, has_prefix}
use payment_gateway.Base.Clock.{Time}
use payment_gateway.Ids.{Uuid}
use payment_gateway.Base.Action.{ok}
use payment_gateway.Webhook.Delivery.{Event, Delivery, new_delivery, claim}
use payment_gateway.Webhook.Endpoint.{
  Endpoint, EndpointStatus, is_enabled, is_empty, wildcard, matches, subscribes, accepts, fan_out,
  fan_out_from,
}
use payment_gateway.Webhook.Endpoint.Wildcard.{
  concat-has_prefix, has_prefix-concat, concat-wildcard, wildcard-concat,
}

-- What a subscription's pattern admits: every event for `*`, the event of its own name, and for
-- `q.*` every event whose name begins with `q.`.
abbrev pub Admits : String → String → Type 0
Admits pat event_type =
    (pat ≡ "*")
    ⊎ (pat ≡ event_type)
    ⊎ ((q : String) × (r : String) × (pat ≡ concat q ".*") × (event_type ≡ concat (concat q ".") r))

Admits-of_matches :
    (event_type pattern : String)
    → matches event_type pattern ≡ true
    → Admits (trim_space pattern) event_type
unfolding matches
Admits-of_matches event_type pattern h =
    let pat = trim_space pattern in
    elim (Bool-cases (text_eq pat "*")) [
      | inl e ↦ inl ((text_eq_iff pat "*").0 e)
      | inr e ↦ elim (Bool-cases (text_eq pat event_type)) [
        | inl f ↦ inr (inl ((text_eq_iff pat event_type).0 f))
        | inr f ↦ elim (Option-cases (wildcard pat)) [
          | inl g ↦ absurd (ground (arith, h, e, f, g))
          | inr (p, g) ↦
              let (q, whole, before) = concat-wildcard pat {p = p} g in
              let begins : has_prefix event_type p ≡ true = ground (arith, h, e, f, g) in
              let (r, name) = concat-has_prefix event_type p begins in
              inr (inr (q, r, whole, name ∙ ap (λ x. concat x r) before))
        ]
      ]
    ]

matches_of_Admits :
    (event_type pattern : String)
    → Admits (trim_space pattern) event_type
    → matches event_type pattern ≡ true
unfolding matches
matches_of_Admits event_type pattern (inl e) =
    ground (arith, (text_eq_iff (trim_space pattern) "*").1 e)
matches_of_Admits event_type pattern (inr (inl e)) =
    ground (arith, (text_eq_iff (trim_space pattern) event_type).1 e)
matches_of_Admits event_type pattern (inr (inr (q, r, whole, name))) =
    let found : wildcard (trim_space pattern) ≡ some (concat q ".") =
      ap wildcard whole ∙ wildcard-concat q in
    let begins : has_prefix event_type (concat q ".") ≡ true =
      ap (λ t. has_prefix t (concat q ".")) name ∙ has_prefix-concat (concat q ".") r in
    ground (arith, found, begins)

-- `Subscribes` lets an event pass by a pattern exactly when the pattern, without white space around
-- it, is `*`, is the event's name, or is `q.*` where the event's name begins with `q.`.
pub matches_iff :
    (event_type pattern : String)
    → (matches event_type pattern ≡ true) ↔ Admits (trim_space pattern) event_type
matches_iff event_type pattern =
    (Admits-of_matches event_type pattern, matches_of_Admits event_type pattern)

-- What an endpoint has to be to get an event: enabled, of the event's mode, and subscribed, with no
-- patterns at all or with one that admits the event's name.
abbrev pub Wants : Endpoint → Event → Type 0
Wants e ev =
    (e.status ≡ EndpointStatus.enabled)
    × (e.livemode ≡ ev.livemode)
    × ((e.enabled_events ≡ [])
        ⊎ ((pat : String) × Member pat e.enabled_events × Admits (trim_space pat) ev.event_type))

Member-of_any :
    (event_type : String) (pats : List String)
    → any (matches event_type) pats ≡ true
    → (pat : String) × Member pat pats × Admits (trim_space pat) event_type
Member-of_any event_type [] h = absurd (ground (arith, h))
Member-of_any event_type (x ∷ xs) h = elim (Bool-cases (matches event_type x)) [
  | inl m ↦ (x, inl refl, Admits-of_matches event_type x m)
  | inr m ↦
      let (pat, there, admits) = Member-of_any event_type xs (ground (arith, h, m)) in
      (pat, inr there, admits)
]

any-of_Member :
    (event_type : String) (pats : List String) (pat : String)
    → Member pat pats
    → Admits (trim_space pat) event_type
    → any (matches event_type) pats ≡ true
any-of_Member event_type [] pat m a = absurd m
any-of_Member event_type (x ∷ xs) pat (inl q) a =
    let here : matches event_type x ≡ true =
      ap (matches event_type) q ∙ matches_of_Admits event_type pat a in
    ground (arith, here)
any-of_Member event_type (x ∷ xs) pat (inr m) a =
    ground (arith, any-of_Member event_type xs pat m a)

subscribed_iff :
    (event_type : String) (pats : List String)
    → ((if is_empty pats then true else any (matches event_type) pats) ≡ true)
      ↔ ((pats ≡ []) ⊎ ((pat : String) × Member pat pats × Admits (trim_space pat) event_type))
subscribed_iff event_type [] = (λ h. inl refl, λ h. refl)
subscribed_iff event_type (x ∷ xs) = (
  λ h. inr (Member-of_any event_type (x ∷ xs) h),
  λ h. elim h [
    | inl bare ↦ absurd (ground (arith, bare))
    | inr (pat, m, a) ↦ any-of_Member event_type (x ∷ xs) pat m a
  ],
)

subscribes_iff :
    (e : Endpoint) (event_type : String)
    → (subscribes e event_type ≡ true) ↔ (
        (e.enabled_events ≡ [])
        ⊎ ((pat : String) × Member pat e.enabled_events × Admits (trim_space pat) event_type))
unfolding subscribes
subscribes_iff e event_type = subscribed_iff event_type e.enabled_events

is_enabled_iff : (e : Endpoint) → (is_enabled (some e) ≡ true) ↔ (e.status ≡ EndpointStatus.enabled)
is_enabled_iff e = ground arith

bool_eq_iff : (a b : Bool) → (bool_eq a b ≡ true) ↔ (a ≡ b)
bool_eq_iff a b = ground arith

accepts_iff : (e : Endpoint) (ev : Event) → (accepts (some e) ev ≡ true) ↔ Wants e ev
unfolding accepts
accepts_iff e ev =
    let subscribed = subscribes_iff e ev.event_type in
    let mode = bool_eq_iff e.livemode ev.livemode in
    let on = is_enabled_iff e in
    (
      λ h. (on.0 (ground (arith, h)), mode.0 (ground (arith, h)), subscribed.0 (ground (arith, h))),
      λ w. ground (arith, on.1 w.0, mode.1 w.1, subscribed.1 w.2),
    )

-- The ids of the endpoints that want an event, each where its endpoint stands.
abbrev pub Selected : Event → List (Option Endpoint) → List Uuid → Type 0
Selected ev [] ids = ids ≡ []
Selected ev (none ∷ es) ids = Selected ev es ids
Selected ev (some e ∷ es) ids =
    (Wants e ev × ((rest : List Uuid) × (ids ≡ e.id ∷ rest) × Selected ev es rest))
    ⊎ ((¬ (Wants e ev)) × Selected ev es ids)

-- A delivery that carries the event, and of which the first attempt can be claimed when it is due.
abbrev pub Carries : Event → Delivery → Type 0
Carries ev d =
    (d.event_id ≡ ev.id)
    × (d.merchant_id ≡ ev.merchant_id)
    × (d.event_payload ≡ ev.payload)
    × (d.livemode ≡ ev.livemode)
    × ((claim d.next_attempt_at d).0 ≡ ok tt)
    × ((claim d.next_attempt_at d).1.attempt_no ≡ 1)

new_delivery-Carries :
    (id : Uuid) (ev : Event) (endpoint : Uuid) (now : Time)
    → Carries ev (new_delivery id ev endpoint now)
unfolding new_delivery claim
new_delivery-Carries id ev endpoint now = (refl, refl, refl, refl, ground arith, ground arith)

fan_out_from-Selected :
    (fresh : ℕ → Uuid) (clock : ℕ → Time) (n : ℕ) (ev : Event) (es : List (Option Endpoint))
    → Selected ev es (map (λ d. d.endpoint_id) (fan_out_from fresh clock n ev es))
      × All (Carries ev) (fan_out_from fresh clock n ev es)
unfolding fan_out_from new_delivery
fan_out_from-Selected fresh clock n ev [] = (refl, tt)
fan_out_from-Selected fresh clock n ev (none ∷ es) = fan_out_from-Selected fresh clock n ev es
fan_out_from-Selected fresh clock n ev (some e ∷ es) =
    let skip = fan_out_from-Selected fresh clock n ev es in
    let rest = fan_out_from-Selected fresh clock (n + 1) ev es in
    elim (Bool-cases (accepts (some e) ev)) [
      | inl a ↦ rw a (
        inl (
          (accepts_iff e ev).0 a,
          (map (λ d. d.endpoint_id) (fan_out_from fresh clock (n + 1) ev es), refl, rest.0),
        ),
        (new_delivery-Carries (fresh n) ev e.id (clock n), rest.1),
      )
      | inr a ↦ rw a (inr (λ w. absurd (ground (arith, a, (accepts_iff e ev).1 w)), skip.0), skip.1)
    ]

-- `FanOut` makes one delivery for each endpoint that is enabled, of the event's mode and subscribed to
-- the event, in the order of the endpoints, and none for another: an endpoint is subscribed if it has
-- no patterns, or one that, without white space around it, is `*`, the event's name, or `q.*` where
-- the name begins with `q.`. Each delivery carries the event's id, merchant, payload and mode, and its
-- first attempt can be claimed when it is due.
pub fan_out-Selected :
    (fresh : ℕ → Uuid) (clock : ℕ → Time) (ev : Event) (es : List (Option Endpoint))
    → Selected ev es (map (λ d. d.endpoint_id) (fan_out fresh clock ev es))
      × All (Carries ev) (fan_out fresh clock ev es)
unfolding fan_out
fan_out-Selected fresh clock ev es = fan_out_from-Selected fresh clock 0 ev es
