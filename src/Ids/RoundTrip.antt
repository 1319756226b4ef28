-- ===== src/Ids/RoundTrip.antt =====
-- What `Format` of pkg/ids/ids.go prints, `Parse` reads back.
use Prim.Native.Char.{Char, code}
use native.Mathlib.Decide.{dec_lt}
use payment_gateway.Base.{
  codes-concat, not, Option-cases, inl, inr, Bool-cases, text_eq_refl, ◌≡◌, ◌≢◌, refl, ap, ◌∙◌,
  arith, ℕ, zero, suc, String, Bool, true, false, some, none, ◌+◌, ◌*◌, ◌/◌, ◌%◌, ◌^◌, ◌<◌, ◌==◌,
  ◌&&◌, concat, codes, length, text_eq, text_eq_iff,
}
use payment_gateway.Base.Action.{ok}
use payment_gateway.Base.Ascii.{nth_char}
use payment_gateway.Ids.{
  Uuid, alphabet, digits, encode, format, index_of, number_from, decode, cut_last, parse,
  parse_with_prefix,
}

-- A test on every number below a bound.
abbrev below : ℕ → (ℕ → Bool) → Bool
below zero p = true
below (suc n) p = p n && below n p

below_holds : (n d : ℕ) (p : ℕ → Bool) → below n p ≡ true → d < n → p d ≡ true
below_holds zero d p h lt = absurd (omega (arith, lt))
below_holds (suc n) d p h lt = elim (dec_lt d n) [
  | yes less ↦ below_holds n d p (ground (arith, h)) less
  | no last ↦ let e : d ≡ n = omega (arith, lt, last) in rw e (ground (arith, h))
]

-- A text of one character, which is read as the digit `d` and is not `_`.
abbrev reads : ℕ → String → Bool
reads d String.[] = false
reads d (String.◌∷◌ c s) = elim (index_of alphabet c) [
  | some n ↦ n == d && text_eq s "" && not (code c == b'_')
  | none ↦ false
]

all_read : below 32 (λ d. reads d (nth_char alphabet d)) ≡ true
unfolding index_of
all_read = refl

abbrev IsDigit : ℕ → String → Type 0
IsDigit d s =
    (c : Char) × (s ≡ String.◌∷◌ c "") × (index_of alphabet c ≡ some d) × ((code c == b'_') ≡ false)

IsDigit-of_reads : (d : ℕ) (s : String) → reads d s ≡ true → IsDigit d s
IsDigit-of_reads d String.[] h = absurd (ground (arith, h))
IsDigit-of_reads d (String.◌∷◌ c s) h = elim (Option-cases (index_of alphabet c)) [
  | inl e ↦ absurd (ground (arith, h, e))
  | inr (n, e) ↦
      let both : (n ≡ d) × (s ≡ "") × ((code c == b'_') ≡ false) =
        ground (arith, h, e, text_eq_iff s "") in
      (c, ap (String.◌∷◌ c) both.1, e ∙ ap some both.0, both.2)
]

nth_char-IsDigit : (d : ℕ) → d < 32 → IsDigit d (nth_char alphabet d)
nth_char-IsDigit d lt =
    IsDigit-of_reads d (nth_char alphabet d)
      (below_holds 32 d (λ d. reads d (nth_char alphabet d)) all_read lt)

-- One digit behind a text that is read as `n`.
number-digit :
    (acc d : ℕ) (s t : String) {n : ℕ}
    → IsDigit d t
    → number_from acc s ≡ some n
    → number_from acc (concat s t) ≡ some (n * 32 + d)
unfolding number_from
number-digit acc d String.[] t {n} (c, e, i, u) h = rw e (ground (arith, i, h))
number-digit acc d (String.◌∷◌ x s) t {n} q h = elim (Option-cases (index_of alphabet x)) [
  | inl e ↦ absurd (ground (arith, h, e))
  | inr (m, e) ↦
      let rest = number-digit (acc * 32 + m) d s t {n = n} q in ground (arith, e, h, rest)
]

digits-number : (k n : ℕ) → n < 32 ^ k → number_from 0 (digits k n) ≡ some n
unfolding digits
digits-number zero n lt = unfold number_from in ap some (omega arith)
digits-number (suc k) n lt =
    let first = digits-number k (n / 32) (omega arith) in
    let digit = nth_char-IsDigit (n % 32) (omega arith) in
    number-digit 0 (n % 32) (digits k (n / 32)) (nth_char alphabet (n % 32)) digit first
    ∙ ap some (omega arith)

digits-length : (k n : ℕ) → length (codes (digits k n)) ≡ k
unfolding digits
digits-length zero n = refl
digits-length (suc k) n =
    let (c, e, _, _) = nth_char-IsDigit (n % 32) (omega arith) in
    let one : length (codes (nth_char alphabet (n % 32))) ≡ 1 = ap (λ s. length (codes s)) e in
    omega (
      arith,
      one,
      digits-length k (n / 32),
      codes-concat (digits k (n / 32)) (nth_char alphabet (n % 32)),
    )

-- No `_` among the digits, and the last `_` before them is found.
cut_last-none :
    (s t : String) → cut_last s ≡ none → cut_last t ≡ none → cut_last (concat s t) ≡ none
unfolding cut_last
cut_last-none String.[] t hs ht = ht
cut_last-none (String.◌∷◌ c s) t hs ht = elim (Option-cases (cut_last s)) [
  | inl e ↦ let rest = cut_last-none s t e ht in ground (arith, hs, e, rest)
  | inr (r, e) ↦ absurd (ground (arith, hs, e))
]

digit-uncut : (d : ℕ) (s : String) → IsDigit d s → cut_last s ≡ none
unfolding cut_last
digit-uncut d s (c, e, _, u) = rw (e, u) refl

digits-uncut : (k n : ℕ) → cut_last (digits k n) ≡ none
unfolding digits
digits-uncut zero n = unfold cut_last in refl
digits-uncut (suc k) n =
    cut_last-none (digits k (n / 32)) (nth_char alphabet (n % 32)) (digits-uncut k (n / 32))
      (digit-uncut (n % 32) (nth_char alphabet (n % 32)) (nth_char-IsDigit (n % 32) (omega arith)))

cut_last-concat :
    (p body : String)
    → cut_last body ≡ none
    → cut_last (concat p (concat "_" body)) ≡ some (p, body)
unfolding cut_last
cut_last-concat String.[] body h = rw h refl
cut_last-concat (String.◌∷◌ c p) body h = rw (cut_last-concat p body h) refl

-- An id of 128 bits is printed and read back, behind any prefix that is not empty: `Parse` returns
-- the prefix and the id, and `ParseWithPrefix` the id.
pub parse-format :
    (p : String) (u : Uuid)
    → p ≢ ""
    → u < 2 ^ 128
    → (parse (format p u) ≡ ok (p, u)) × (parse_with_prefix (format p u) p ≡ ok u)
unfolding parse format encode decode parse_with_prefix
parse-format p u n lt =
    let body = digits 26 (u * 4) in
    let found = cut_last-concat p body (digits-uncut 26 (u * 4)) in
    let number = digits-number 26 (u * 4) (omega arith) in
    let size = digits-length 26 (u * 4) in
    let back : u * 4 / 4 ≡ u = omega arith in
    let nonempty : text_eq p "" ≡ false = ground (arith, n, text_eq_iff p "") in
    let filled : text_eq body "" ≡ false = elim (Bool-cases (text_eq body "")) [
      | inl e ↦
          let none_left : length (codes body) ≡ 0 =
            ap (λ s. length (codes s)) ((text_eq_iff body "").0 e) in
          absurd (omega (arith, size, none_left))
      | inr e ↦ e
    ] in
    let parsed : parse (concat p (concat "_" body)) ≡ ok (p, u) =
      rw (parse, found, nonempty, filled, size, decode, number, back) refl in
    (parsed, rw (parse_with_prefix, parsed, text_eq_refl p) refl)
