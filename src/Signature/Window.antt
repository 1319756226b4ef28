-- ===== src/Signature/Window.antt =====
-- pkg/sig: the window of time and the format of a signature, described apart from `checkTimestamp` and
-- `ParseSignature`.
use Prim.Native.Char.{code}
use text.Mathlib.TextEquality.{Char-path}
use payment_gateway.Base.{
  ℕ, ◌+◌, ◌-◌, ◌*◌, ◌<◌, ◌≤◌, ◌^◌, ◌≡◌, ◌↔◌, ◌⊎◌, inl, inr, refl, sym, ap, ◌∙◌, arith, String, true,
  some, List, [], ◌∷◌, All, all, length, codes, concat, cut, text_eq, text_eq_iff, ◌==◌, ==_iff,
  Bool-cases,
}
use payment_gateway.Base.Action.{ok}
use payment_gateway.Base.Ascii.{trim_space, to_lower}
use payment_gateway.Base.Int.{
  ℤ, pos, negsuc, pos_part, neg_part, ◌<ℤ◌, ◌≤ℤ◌, ◌-ℤ◌, ◌*ℤ◌, -ℤ_parts, sub64, neg64, mul64, wrap64,
  wrap64_of_IsInt64,
}
use payment_gateway.Signature.{is_hex, magnitude, parse_signature, parse_int64, check_timestamp}

-- How many seconds lie between two times.
abbrev pub distance : ℤ → ℤ → ℕ
distance a b =
    (pos_part a + neg_part b - (pos_part b + neg_part a))
    + (pos_part b + neg_part a - (pos_part a + neg_part b))

-- So many seconds are within a window of nanoseconds, or within five minutes if the window is not
-- positive.
abbrev pub InWindow : ℤ → ℕ → Type 0
InWindow window seconds =
    ((pos 0 <ℤ window) × (seconds * 1_000_000_000 ≤ pos_part window))
    ⊎ ((window ≤ℤ pos 0) × (seconds ≤ 300))

distance_of_parts :
    (a b z : ℤ)
    → pos_part z + neg_part a + pos_part b ≡ neg_part z + pos_part a + neg_part b
    → pos_part z + neg_part z ≡ distance a b
distance_of_parts a b (pos n) h = omega (arith, h)
distance_of_parts a b (negsuc n) h = omega (arith, h)

magnitude_exact :
    (z : ℤ) → pos_part z + neg_part z < 2 ^ 63 → magnitude z ≡ pos (pos_part z + neg_part z)
unfolding neg64 wrap64 ◌-ℤ◌
magnitude_exact (pos n) h = ground (arith, h)
magnitude_exact (negsuc n) h = ground (arith, h)

in_nanoseconds :
    (d : ℕ) → d < 9_223_372_037 → mul64 (pos d) (pos 1_000_000_000) ≡ pos (d * 1_000_000_000)
unfolding mul64 wrap64 ◌*ℤ◌
in_nanoseconds d h = ground (arith, h)

-- Near enough, the nanoseconds between two times do not wrap.
nanoseconds :
    (now sec : ℤ)
    → distance now sec < 9_223_372_037
    → mul64 (magnitude (sub64 now sec)) (pos 1_000_000_000) ≡ pos (distance now sec * 1_000_000_000)
unfolding sub64
nanoseconds now sec near =
    let d = distance_of_parts now sec (now -ℤ sec) (-ℤ_parts now sec) in
    let exact = wrap64_of_IsInt64 (now -ℤ sec) (omega (arith, d, near), omega (arith, d, near)) in
    let size = magnitude_exact (now -ℤ sec) (omega (arith, d, near)) in
    ap (λ z. mul64 (magnitude z) (pos 1_000_000_000)) exact
    ∙ ap (λ z. mul64 z (pos 1_000_000_000)) (size ∙ ap pos d)
    ∙ in_nanoseconds (distance now sec) near

pub check_timestamp_iff :
    (ts : String) (now window sec : ℤ)
    → parse_int64 ts ≡ some sec
    → distance now sec < 9_223_372_037
    → (check_timestamp ts now window ≡ ok tt) ↔ InWindow window (distance now sec)
unfolding check_timestamp
check_timestamp_iff ts now window sec p near =
    let exact = nanoseconds now sec near in
    (λ h. ground (arith, p, exact, h), λ h. ground (arith, p, exact, h))

-- The text of a hexadecimal digit.
abbrev pub IsHexDigit : ℕ → Type 0
IsHexDigit c = ((48 ≤ c) × (c ≤ 57)) ⊎ ((97 ≤ c) × (c ≤ 102)) ⊎ ((65 ≤ c) × (c ≤ 70))

-- `v1=` and 64 hexadecimal digits, in which the case of the digits does not count.
abbrev pub Format : String → String → Type 0
Format signature hex =
    (digits : String) × (trim_space signature ≡ concat "v1=" digits)
    × (length (codes digits) ≡ 64)
    × All IsHexDigit (codes digits)
    × (hex ≡ to_lower digits)

hex_iff : (cs : List ℕ) → (all is_hex cs ≡ true) ↔ All IsHexDigit cs
hex_iff [] = (λ h. tt, λ h. refl)
hex_iff (c ∷ cs) =
    let rest = hex_iff cs in
    (λ h. (ground (arith, h), rest.0 (ground (arith, h))), λ h. ground (arith, h.0, rest.1 h.1))

-- What is before and after a separator that is there.
cut_found : (s : String) → (cut 61 s).2 ≡ true → s ≡ concat (cut 61 s).0 (concat "=" (cut 61 s).1)
cut_found String.[] h = absurd (ground (arith, h))
cut_found (String.◌∷◌ c s) h = elim (Bool-cases (code c == 61)) [
  | inl e ↦ rw e (ap (λ x. String.◌∷◌ x s) (Char-path c "=" ((==_iff (code c) 61).0 e)))
  | inr e ↦ rw e (ap (String.◌∷◌ c) (cut_found s (rw e at h)))
]

pub parse_signature_iff :
    (signature hex : String) → (parse_signature signature ≡ ok hex) ↔ Format signature hex
unfolding parse_signature
parse_signature_iff signature hex = (
  λ h.
      let parts = cut 61 (trim_space signature) in
      let found : parts.2 ≡ true = ground (arith, h) in
      let version : text_eq parts.0 "v1" ≡ true = ground (arith, h) in
      let digits : all is_hex (codes parts.1) ≡ true = ground (arith, h) in
      (
        parts.1,
        cut_found (trim_space signature) found
            ∙ ap (λ v. concat v (concat "=" parts.1)) ((text_eq_iff parts.0 "v1").0 version),
        ground (arith, h),
        (hex_iff (codes parts.1)).0 digits,
        ground (arith, h),
      ),
  λ h. rw (h.1, h.2, (hex_iff (codes h.0)).1 h.3) (ap ok (sym h.4)),
)
