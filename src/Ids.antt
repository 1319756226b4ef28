-- ===== src/Ids.antt =====
-- pkg/ids/ids.go: public identifiers, `<prefix>_<26 characters of Crockford base32>`. A UUID is the
-- number that its 128 bits spell, and `uuid.Nil` is 0; drawing a fresh one is the caller's.
pub mod RoundTrip
mod Examples
use Prim.Native.Char.{Char, code}
use payment_gateway.Base.{
  ℕ, zero, suc, String, Bool, true, false, Option, none, some, ◌+◌, ◌-◌, ◌*◌, ◌/◌, ◌%◌, ◌^◌, ◌==◌,
  ltb, if◌then◌else◌, text_eq, not, ◌||◌, concat, codes, length,
}
use payment_gateway.Base.Ascii.{nth_char}
use payment_gateway.Base.Action.{Result, ok, err, fail_if, ◌>>=◌, ◌>>◌}

abbrev pub Uuid : Type 0
Uuid = ℕ

abbrev pub nil_uuid : Uuid
nil_uuid = 0

-- The prefixes that this development uses.
abbrev pub prefix_payment : String
prefix_payment = "pay"

abbrev pub prefix_refund : String
prefix_refund = "re"

abbrev pub prefix_attempt : String
prefix_attempt = "att"

-- The alphabet of `crockford`.
abbrev pub alphabet : String
alphabet = "0123456789ABCDEFGHJKMNPQRSTVWXYZ"

-- The last `k` base-32 digits of `n`, the highest first.
unfoldable pub digits : ℕ → ℕ → String
digits zero n = ""
digits (suc k) n = concat (digits k (n / 32)) (nth_char alphabet (n % 32))

-- `crockford.EncodeToString` of 16 bytes: 26 digits of five bits, the last two bits are padding.
unfoldable pub encode : Uuid → String
encode u = digits 26 (u * 4)

-- `Format`
unfoldable pub format : String → Uuid → String
unfolding encode
format prefix u = concat prefix (concat "_" (encode u))

-- The digit that a character stands for.
unfoldable pub index_of : String → Char → Option ℕ
index_of String.[] c = none
index_of (String.◌∷◌ d s) c =
    if code d == code c then some 0 else elim (index_of s c) [ some n ↦ some (n + 1) | none ↦ none ]

-- The number that digits spell after `acc`; a character that is no digit is an error.
unfoldable pub number_from : ℕ → String → Option ℕ
number_from acc String.[] = some acc
number_from acc (String.◌∷◌ c s) = elim (index_of alphabet c) [
  | some d ↦ number_from (acc * 32 + d) s
  | none ↦ none
]

-- `crockford.DecodeString` of 26 characters: 16 bytes, without the last two bits.
unfoldable pub decode : String → Option Uuid
decode body = elim (number_from 0 body) [ some n ↦ some (n / 4) | none ↦ none ]

-- The text before and after the last `_`, as `strings.LastIndexByte` finds it.
unfoldable pub cut_last : String → Option (String × String)
cut_last String.[] = none
cut_last (String.◌∷◌ c s) = elim (cut_last s) [
  | some (before, after) ↦ some (String.◌∷◌ c before, after)
  | none ↦ if code c == b'_' then some ("", s) else none
]

-- `ErrInvalid`
pub data IdError : Type 0 where
  invalid : IdError

-- The part of `Parse` after the cut.
abbrev pub parse_parts : String → String → Result IdError (String × Uuid)
parse_parts before body =
    if text_eq before "" || text_eq body ""
    then err invalid
    else if not (length (codes body) == 26)
    then err invalid
    else elim (decode body) [ some u ↦ ok (before, u) | none ↦ err invalid ]

-- `Parse`
unfoldable pub parse : String → Result IdError (String × Uuid)
unfolding decode
parse id = elim (cut_last id) [ some (before, body) ↦ parse_parts before body | none ↦ err invalid ]

-- `ParseWithPrefix`
unfoldable pub parse_with_prefix : String → String → Result IdError Uuid
unfolding parse
parse_with_prefix id want_prefix = do
  (p, u) ← parse id
  fail_if (not (text_eq p want_prefix)) invalid
  ok u
