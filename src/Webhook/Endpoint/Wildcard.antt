-- ===== src/Webhook/Endpoint/Wildcard.antt =====
-- The prefix test and the `.*` of internal/webhook/domain/endpoint.go, by what a text is made of.
use Prim.Native.Char.{code}
use text.Mathlib.TextEquality.{Char-path}
use payment_gateway.Base.{
  codes-concat, ◌≡◌, inl, inr, refl, ap, ◌∙◌, arith, ==_iff, String, true, some, Option-cases,
  Bool-cases, length, codes, concat, text_eq, text_eq_iff,
}
use payment_gateway.Base.Ascii.{has_prefix}
use payment_gateway.Webhook.Endpoint.{wildcard}

pub concat-has_prefix : (s p : String) → has_prefix s p ≡ true → (r : String) × (s ≡ concat p r)
concat-has_prefix s String.[] h = (s, refl)
concat-has_prefix String.[] (String.◌∷◌ d p) h = absurd (ground (arith, h))
concat-has_prefix (String.◌∷◌ c s) (String.◌∷◌ d p) h =
    let same : c ≡ d = Char-path c d ((==_iff (code c) (code d)).0 (ground (arith, h))) in
    let (r, e) = concat-has_prefix s p (ground (arith, h)) in
    (r, ap (String.◌∷◌ c) e ∙ ap (λ x. String.◌∷◌ x (concat p r)) same)

pub has_prefix-concat : (p r : String) → has_prefix (concat p r) p ≡ true
has_prefix-concat String.[] r = refl
has_prefix-concat (String.◌∷◌ d p) r =
    ground (arith, has_prefix-concat p r, ==_iff (code d) (code d))

-- A pattern that ends in `.*`, and what stands before the star.
pub concat-wildcard :
    (s : String) {p : String}
    → wildcard s ≡ some p
    → (q : String) × (s ≡ concat q ".*") × (p ≡ concat q ".")
concat-wildcard String.[] h = absurd (ground (arith, h))
concat-wildcard (String.◌∷◌ c s) {p} h = elim (Bool-cases (text_eq (String.◌∷◌ c s) ".*")) [
  | inl e ↦ ("", (text_eq_iff (String.◌∷◌ c s) ".*").0 e, ground (arith, h, e))
  | inr e ↦ elim (Option-cases (wildcard s)) [
    | inl f ↦ absurd (ground (arith, h, e, f))
    | inr (t, f) ↦
        let (q, front, before) = concat-wildcard s {p = t} f in
        let found : p ≡ String.◌∷◌ c t = ground (arith, h, e, f) in
        (String.◌∷◌ c q, ap (String.◌∷◌ c) front, found ∙ ap (String.◌∷◌ c) before)
  ]
]

pub wildcard-concat : (q : String) → wildcard (concat q ".*") ≡ some (concat q ".")
wildcard-concat String.[] = refl
wildcard-concat (String.◌∷◌ c q) =
    let rest = wildcard-concat q in
    elim (Bool-cases (text_eq (String.◌∷◌ c (concat q ".*")) ".*")) [
      | inl e ↦
          let long : length (codes (String.◌∷◌ c (concat q ".*"))) ≡ 2 =
            ap (λ s. length (codes s)) ((text_eq_iff (String.◌∷◌ c (concat q ".*")) ".*").0 e) in
          absurd (omega (arith, long, codes-concat q ".*"))
      | inr e ↦ ground (arith, e, rest)
    ]
