-- ===== src/Base/Ascii.antt =====
-- ASCII texts as packages strings and strconv read and print them; a character stands for a byte.
use Prim.Native.Char.{Char, code}
use payment_gateway.Base.Lists.{length}
use payment_gateway.Base.Tests.{if◌then◌else◌, ◌==◌, leb}
use payment_gateway.Base.Text.{text_eq, concat, codes}
use payment_gateway.Base.Int.{ℤ, pos, negsuc}
use Prim.Native.Nat.{ℕ, zero, suc, ◌+◌, ◌-◌, ◌*◌, ◌/◌, ◌%◌}
use Prim.Native.String.{String}
use mathlib.Core.Bool.{Bool, true, false, ◌&&◌, ◌||◌}
use mathlib.Core.Option.{Option, none, some}

-- The character at a place, as a text.
abbrev pub nth_char : String → ℕ → String
nth_char String.[] n = String.[]
nth_char (String.◌∷◌ c s) zero = String.◌∷◌ c String.[]
nth_char (String.◌∷◌ c s) (suc n) = nth_char s n

-- The ASCII white space that `strings.TrimSpace` cuts.
abbrev pub is_space : ℕ → Bool
is_space c = c == 32 || (leb 9 c && leb c 13)

abbrev pub trim_left : String → String
trim_left String.[] = ""
trim_left (String.◌∷◌ c s) =
    let rest = trim_left s in if is_space (code c) then rest else String.◌∷◌ c s

-- A text behind which only white space is left out.
abbrev pub trim_right : String → String
trim_right String.[] = ""
trim_right (String.◌∷◌ c s) =
    let rest = trim_right s in
    if text_eq rest "" && is_space (code c) then "" else String.◌∷◌ c rest

abbrev pub trim_space : String → String
trim_space s = trim_right (trim_left s)

-- `strings.HasPrefix`
abbrev pub has_prefix : String → String → Bool
has_prefix s String.[] = true
has_prefix String.[] (String.◌∷◌ d p) = false
has_prefix (String.◌∷◌ c s) (String.◌∷◌ d p) = code c == code d && has_prefix s p

abbrev pub drop_text : ℕ → String → String
drop_text zero s = s
drop_text (suc n) String.[] = ""
drop_text (suc n) (String.◌∷◌ c s) = drop_text n s

-- `strings.TrimPrefix`
abbrev pub trim_prefix : String → String → String
trim_prefix s p = let rest = drop_text (length (codes p)) s in if has_prefix s p then rest else s

abbrev pub is_upper : ℕ → Bool
is_upper c = leb b'A' c && leb c b'Z'

abbrev pub is_lower : ℕ → Bool
is_lower c = leb b'a' c && leb c b'z'

abbrev lower_char : Char → String
lower_char c =
    if is_upper (code c)
    then nth_char "abcdefghijklmnopqrstuvwxyz" (code c - b'A')
    else String.◌∷◌ c String.[]

abbrev upper_char : Char → String
upper_char c =
    if is_lower (code c)
    then nth_char "ABCDEFGHIJKLMNOPQRSTUVWXYZ" (code c - b'a')
    else String.◌∷◌ c String.[]

-- `strings.ToLower`
abbrev pub to_lower : String → String
to_lower String.[] = ""
to_lower (String.◌∷◌ c s) = concat (lower_char c) (to_lower s)

-- `strings.ToUpper`
abbrev pub to_upper : String → String
to_upper String.[] = ""
to_upper (String.◌∷◌ c s) = concat (upper_char c) (to_upper s)

abbrev pub is_digit : ℕ → Bool
is_digit c = leb b'0' c && leb c b'9'

-- The number that decimal digits spell after `acc`; a character that is no digit is an error.
unfoldable pub digits_from : ℕ → String → Option ℕ
digits_from acc String.[] = some acc
digits_from acc (String.◌∷◌ c s) =
    let rest = digits_from (acc * 10 + (code c - b'0')) s in
    if is_digit (code c) then rest else none

-- The last `k` decimal digits of `n`, the highest first.
unfoldable pub decimal_digits : ℕ → ℕ → String
decimal_digits zero n = ""
decimal_digits (suc k) n = concat (decimal_digits k (n / 10)) (nth_char "0123456789" (n % 10))

abbrev strip_zeros : String → String
strip_zeros String.[] = "0"
strip_zeros (String.◌∷◌ c s) =
    let rest = strip_zeros s in if code c == b'0' then rest else String.◌∷◌ c s

-- `%d` of an int64: 19 digits are enough.
abbrev pub print_int : ℤ → String
print_int (pos n) = strip_zeros (decimal_digits 19 n)
print_int (negsuc n) = concat "-" (strip_zeros (decimal_digits 19 (suc n)))
