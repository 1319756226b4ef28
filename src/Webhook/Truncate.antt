-- ===== src/Webhook/Truncate.antt =====
-- internal/webhook/domain/delivery.go: `truncate`. A text stands for its bytes, one character each.
use Prim.Native.Char.{code}
use payment_gateway.Base.{
  ℕ, zero, suc, ◌/◌, leb, ◌==◌, String, Bool, Option, none, some, not, if◌then◌else◌, codes, length,
}

-- `len`
abbrev pub bytes : String → ℕ
bytes s = length (codes s)

-- `s[:n]`
abbrev pub prefix : ℕ → String → String
prefix zero s = ""
prefix (suc n) String.[] = ""
prefix (suc n) (String.◌∷◌ c s) = String.◌∷◌ c (prefix n s)

-- The last byte.
abbrev pub last_byte : String → Option ℕ
last_byte String.[] = none
last_byte (String.◌∷◌ c s) = elim (last_byte s) [ some b ↦ some b | none ↦ some (code c) ]

-- Without the last byte.
abbrev pub front : String → String
front String.[] = ""
front (String.◌∷◌ c String.[]) = ""
front (String.◌∷◌ c (String.◌∷◌ d s)) = String.◌∷◌ c (front (String.◌∷◌ d s))

-- `b & 0xC0 == 0x80`
abbrev pub is_continuation : ℕ → Bool
is_continuation b = b / 64 == 2

-- The loop that takes off an unfinished character, in at most `i` rounds.
unfoldable pub trim : ℕ → String → String
trim zero s = s
trim (suc i) s =
    let rest = trim i (front s) in
    elim (last_byte s) [
      | none ↦ s
      | some b ↦ if not (is_continuation b) then (if leb 192 b then front s else s) else rest
    ]

unfoldable pub truncate : ℕ → String → String
unfolding trim
truncate n s = if leb (bytes s) n then s else trim 3 (prefix n s)
