-- ===== src/Signature/Rotation.antt =====
-- pkg/sig: which requests `VerifyAny` accepts while a merchant's secrets are rotated.
use payment_gateway.Base.{
  ◌≡◌, ◌↔◌, refl, sym, ap, ◌∙◌, subst, arith, String, false, List, [], ◌∷◌, ◌||◌, not, Bool-cases,
  inl, inr, Member, text_eq, ◌<◌, some, Option-cases, text_eq_iff, text_eq_refl,
}
use payment_gateway.Base.Action.{Result-cases, ok, fail_if}
use payment_gateway.Base.Int.{ℤ}
use payment_gateway.Signature.{
  SigError, signature_invalid, Request, parse_signature, check_timestamp, parse_int64, sign_hex,
  verify, is_invalid, verify_each, verify_any,
}
use payment_gateway.Signature.Window.{
  distance, InWindow, Format, check_timestamp_iff, parse_signature_iff,
}

module _ (hmac_hex : String → String → String) (sha256_hex : String → String) (now window : ℤ)
    (r : Request) where
  -- What the checks before the signature itself say.
  abbrev Checked : String → Type 0
  Checked hex =
      (text_eq r.ts "" || text_eq r.signature "" ≡ false)
      × (parse_signature r.signature ≡ ok hex)
      × (check_timestamp r.ts now window ≡ ok tt)

  abbrev CheckedBy : String → Type 0
  CheckedBy secret = (text_eq secret "" ≡ false) × Checked (sign_hex hmac_hex sha256_hex secret r)

  verified :
      (secret : String)
      → verify hmac_hex sha256_hex now window r secret ≡ ok tt
      → Checked (sign_hex hmac_hex sha256_hex secret r)
  unfolding verify
  verified secret h = elim (Bool-cases (text_eq r.ts "" || text_eq r.signature "")) [
    | inl b ↦ absurd (ground (arith, (rw b at h)))
    | inr b ↦ elim (Result-cases (parse_signature r.signature)) [
      | inr (e, p) ↦ absurd (ground (arith, (rw (b, p) at h)))
      | inl (hex, p) ↦ elim (Result-cases (check_timestamp r.ts now window)) [
        | inr (e, c) ↦ absurd (ground (arith, (rw (b, p, c) at h)))
        | inl (u, c) ↦ elim (Bool-cases (text_eq hex (sign_hex hmac_hex sha256_hex secret r))) [
          | inr t ↦ absurd (ground (arith, (rw (b, p, c, t) at h)))
          | inl t ↦ (b, p ∙ ap ok ((text_eq_iff hex _).0 t), c)
        ]
      ]
    ]
  ]

  -- In time, a secret is the one of the signature or it is not.
  Checked-verify :
      (hex secret : String)
      → Checked hex
      → verify hmac_hex sha256_hex now window r secret
        ≡ fail_if (not (text_eq hex (sign_hex hmac_hex sha256_hex secret r))) signature_invalid
  unfolding verify
  Checked-verify hex secret (b, p, c) = rw (b, p, c) refl

  from_each :
      (secrets : List String) (last : SigError)
      → verify_each hmac_hex sha256_hex now window r secrets last ≡ ok tt
      → (s : String) × Member s secrets × CheckedBy s
  from_each [] last h = absurd (ground (arith, h))
  from_each (s ∷ ss) last h = elim (Bool-cases (text_eq s "")) [
    | inl e ↦ let (t, m, b) = from_each ss last (rw e at h) in (t, inr m, b)
    | inr e ↦ elim (Result-cases (verify hmac_hex sha256_hex now window r s)) [
      | inl (u, v) ↦ (s, inl refl, (e, verified s v))
      | inr (f, v) ↦ elim (Bool-cases (is_invalid hmac_hex sha256_hex f)) [
        | inl i ↦ let (t, m, b) = from_each ss f (rw i at (rw (e, v) at h)) in (t, inr m, b)
        | inr i ↦ absurd (ground (arith, (rw i at (rw (e, v) at h))))
      ]
    ]
  ]

  to_each :
      (secrets : List String) (last : SigError) (s : String)
      → Member s secrets
      → CheckedBy s
      → verify_each hmac_hex sha256_hex now window r secrets last ≡ ok tt
  to_each [] last s m b = absurd m
  to_each (x ∷ ss) last s (inl q) b =
      let here : verify hmac_hex sha256_hex now window r x ≡ ok tt =
        subst (λ y. verify hmac_hex sha256_hex now window r y ≡ ok tt) (sym q)
          (Checked-verify _ s b.1 ∙ rw (text_eq_refl (sign_hex hmac_hex sha256_hex s r)) refl) in
      rw (subst (λ y. text_eq y "" ≡ false) (sym q) b.0) (rw here refl)
  to_each (x ∷ ss) last s (inr m) b = elim (Bool-cases (text_eq x "")) [
    | inl e ↦ rw e (to_each ss last s m b)
    | inr e ↦
        let hex : String = sign_hex hmac_hex sha256_hex s r in
        let answer = Checked-verify hex x b.1 in
        elim (Bool-cases (text_eq hex (sign_hex hmac_hex sha256_hex x r))) [
          | inl t ↦ rw e (rw answer (rw t refl))
          | inr t ↦ rw e (rw answer (rw t (to_each ss signature_invalid s m b)))
        ]
  ]

  -- A request that has a time in the window, and a signature that is `v1=` and these digits.
  abbrev pub Timely : String → Type 0
  Timely hex =
      (text_eq r.ts "" || text_eq r.signature "" ≡ false)
      × Format r.signature hex
      × ((sec : ℤ) × (parse_int64 r.ts ≡ some sec) × InWindow window (distance now sec))

  -- A secret of which the request has the signature.
  abbrev pub SignedBy : String → Type 0
  SignedBy secret = (text_eq secret "" ≡ false) × Timely (sign_hex hmac_hex sha256_hex secret r)

  module _ (near : (sec : ℤ) → parse_int64 r.ts ≡ some sec → distance now sec < 9_223_372_037) where
    Timely-of_Checked : (hex : String) → Checked hex → Timely hex
    unfolding check_timestamp
    Timely-of_Checked hex (b, p, c) = elim (Option-cases (parse_int64 r.ts)) [
      | inl e ↦ absurd (ground (arith, c, e))
      | inr (sec, e) ↦
          let window_iff = check_timestamp_iff r.ts now window sec e (near sec e) in
          (b, (parse_signature_iff r.signature hex).0 p, (sec, e, window_iff.0 c))
    ]

    Checked-of_Timely : (hex : String) → Timely hex → Checked hex
    Checked-of_Timely hex (b, p, (sec, e, w)) =
        let window_iff = check_timestamp_iff r.ts now window sec e (near sec e) in
        (b, (parse_signature_iff r.signature hex).1 p, window_iff.1 w)

  -- While secrets are rotated, `VerifyAny` accepts a request, whose time is less than 9223372037 seconds
  -- (292 years) from now if it is a number, exactly when one of the merchant's secrets that is not empty
  -- gives the signature: the time and the signature are there, the time is a decimal int64 that is from
  -- now, before or after, at most the window (five minutes where the window is not positive), and the
  -- signature, without white space around it, is `v1=` and 64 hexadecimal digits which in lower case are
  -- the ones of that secret. It does not matter which secrets stand before it.
  pub verify_any_iff :
      (near : (sec : ℤ) → parse_int64 r.ts ≡ some sec → distance now sec < 9_223_372_037)
      (secrets : List String)
      → (verify_any hmac_hex sha256_hex now window r secrets ≡ ok tt)
        ↔ ((s : String) × Member s secrets × SignedBy s)
  unfolding verify_any
  verify_any_iff near secrets = (
    λ h.
        let (s, m, (e, c)) = from_each secrets signature_invalid h in
        (s, m, (e, Timely-of_Checked near _ c)),
    λ h.
        to_each secrets signature_invalid h.0 h.1
          (h.2.0, Checked-of_Timely near (sign_hex hmac_hex sha256_hex h.0 r) h.2.1),
  )
