-- ===== src/Base/Text.antt =====
-- Go strings as native texts. `text_eq` is `==` on strings; `codes` are the code points.
use Prim.Native.Nat.{ℕ, ◌+◌}
use native.Mathlib.Omega.{arith}
use payment_gateway.Base.Lists.{length}
use payment_gateway.Base.Tests.{if◌then◌else◌, ◌==◌ as nat_eq}
use Prim.Native.Char.{code}
use Prim.Native.String.{String}
use mathlib.Core.Path.{◌≡◌, refl, ap}
use mathlib.Core.Logic.{◌↔◌}
use mathlib.Core.Bool.{Bool, true, false}
use mathlib.Core.List.{List, [], ◌∷◌}
use text.Mathlib.Text.{◌==◌}
use text.Mathlib.TextPositions.{eq_refl}
use text.Mathlib.TextEquality.{eq_iff}

abbrev pub text_eq : String → String → Bool
text_eq s t = s == t

pub text_eq_iff : (s t : String) → (text_eq s t ≡ true) ↔ (s ≡ t)
text_eq_iff s t = eq_iff s t

abbrev pub codes : String → List ℕ
codes String.[] = []
codes (String.◌∷◌ c s) = code c ∷ codes s

-- Go's `s + t`, by the characters of `s`.
abbrev pub concat : String → String → String
concat String.[] t = t
concat (String.◌∷◌ c s) t = String.◌∷◌ c (concat s t)

pub concat-nil : (s : String) → concat s "" ≡ s
concat-nil String.[] = refl
concat-nil (String.◌∷◌ c s) = ap (String.◌∷◌ c) (concat-nil s)

pub concat_assoc : (s t u : String) → concat (concat s t) u ≡ concat s (concat t u)
concat_assoc String.[] t u = refl
concat_assoc (String.◌∷◌ c s) t u = ap (String.◌∷◌ c) (concat_assoc s t u)

pub text_eq_refl : (s : String) → text_eq s s ≡ true
text_eq_refl s = eq_refl s

-- `strings.Cut` at a one-character separator: what is before and after the first one, and whether
-- there is one.
abbrev pub cut : ℕ → String → String × String × Bool
cut sep String.[] = ("", "", false)
cut sep (String.◌∷◌ c s) =
    let (before, after, found) = cut sep s in
    if nat_eq (code c) sep then ("", s, true) else (String.◌∷◌ c before, after, found)

pub codes-concat :
    (s t : String) → length (codes (concat s t)) ≡ length (codes s) + length (codes t)
codes-concat String.[] t = omega arith
codes-concat (String.◌∷◌ c s) t = omega (arith, codes-concat s t)
