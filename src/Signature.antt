-- ===== src/Signature.antt =====
-- pkg/sig: the signatures of merchants' requests. HMAC-SHA256 and SHA-256, in hexadecimal, are arguments;
-- the time is `now.Unix()`, and a duration is a number of nanoseconds.

pub mod Window
pub mod Rotation
mod Examples
use payment_gateway.Base.{
  ℕ, suc, ◌+◌, ◌-◌, ◌^◌, ◌==◌, leb, String, Bool, true, false, Option, none, some, List, [], ◌∷◌,
  ◌&&◌, ◌||◌, not, length, all, codes, concat, cut, text_eq, if◌then◌else◌,
}
use Prim.Native.Char.{code}
use payment_gateway.Base.Action.{Result, ok, err, fail_if, ◌>>=◌, ◌>>◌}
use payment_gateway.Base.Ascii.{trim_space, to_lower, to_upper, digits_from}
use payment_gateway.Base.Int.{ℤ, pos, negsuc, sub64, neg64, mul64, ltb_ℤ, ◌-ℤ◌}

pub data SigError : Type 0 where
  signature_missing signature_invalid timestamp_invalid timestamp_out_of_window : SigError

-- `DefaultWindow`
abbrev pub default_window : ℤ
default_window = pos 300_000_000_000

abbrev pub is_hex : ℕ → Bool
is_hex c = (leb 48 c && leb c 57) || ((leb 97 c && leb c 102) || (leb 65 c && leb c 70))

-- `ParseSignature`
unfoldable pub parse_signature : String → Result SigError String
parse_signature header =
    let (version, hex, found) = cut 61 (trim_space header) in
    if not found || (not (text_eq version "v1") || not (length (codes hex) == 64))
    then err signature_missing
    else if not (all is_hex (codes hex))
    then err signature_missing
    else ok (to_lower hex)

-- A magnitude of `strconv.ParseInt` with its sign, where it fits int64.
abbrev signed : Bool → Option ℕ → Option ℤ
signed negative none = none
signed true (some n) = if leb n (2 ^ 63) then some (pos 0 -ℤ pos n) else none
signed false (some n) = if leb (suc n) (2 ^ 63) then some (pos n) else none

abbrev digits : String → Option ℕ
digits s = if text_eq s "" then none else digits_from 0 s

-- `strconv.ParseInt(s, 10, 64)`
unfoldable pub parse_int64 : String → Option ℤ
parse_int64 String.[] = none
parse_int64 (String.◌∷◌ c s) =
    if code c == 45
    then signed true (digits s)
    else if code c == 43
    then signed false (digits s)
    else signed false (digits (String.◌∷◌ c s))

abbrev window_or_default : ℤ → ℤ
window_or_default window = if ltb_ℤ (pos 0) window then window else default_window

abbrev pub magnitude : ℤ → ℤ
magnitude diff = if ltb_ℤ diff (pos 0) then neg64 diff else diff

abbrev in_window : ℤ → ℤ → Option ℤ → Result SigError (Unit {0})
in_window now window none = err timestamp_invalid
in_window now window (some sec) =
    fail_if
      (ltb_ℤ (window_or_default window) (mul64 (magnitude (sub64 now sec)) (pos 1_000_000_000)))
      timestamp_out_of_window

-- `checkTimestamp`
unfoldable pub check_timestamp : String → ℤ → ℤ → Result SigError (Unit {0})
check_timestamp ts now window = in_window now window (parse_int64 ts)

-- What a signature is made of.
pub record Request : Type 0 where
  pub ts : String
  pub signature : String
  pub verb : String
  pub target : String
  pub body : String

module _ (hmac_hex : String → String → String) (sha256_hex : String → String) where
  -- `CanonicalString`
  unfoldable pub canonical_string : Request → String
  canonical_string r = concat r.ts (
      concat "\n" (
        concat (to_upper r.verb) (concat "\n" (concat r.target (concat "\n" (sha256_hex r.body))))))

  -- `SignHex`
  unfoldable pub sign_hex : String → Request → String
  sign_hex secret r = hmac_hex secret (canonical_string r)

  -- `Verify`
  unfoldable pub verify : ℤ → ℤ → Request → String → Result SigError (Unit {0})
  verify now window r secret = do
    fail_if (text_eq r.ts "" || text_eq r.signature "") signature_missing
    got ← parse_signature r.signature
    check_timestamp r.ts now window
    fail_if (not (text_eq got (sign_hex secret r))) signature_invalid

  abbrev pub is_invalid : SigError → Bool
  is_invalid signature_invalid = true
  is_invalid _ = false

  -- What the loop does with the answer of one secret.
  abbrev pub or_next :
      Result SigError (Unit {0})
      → (SigError → Result SigError (Unit {0}))
      → Result SigError (Unit {0})
  or_next (ok u) next = ok u
  or_next (err e) next = if is_invalid e then next e else err e

  abbrev pub verify_each : ℤ → ℤ → Request → List String → SigError → Result SigError (Unit {0})
  verify_each now window r [] last = err last
  verify_each now window r (s ∷ ss) last =
      let rest = verify_each now window r ss in
      if text_eq s "" then rest last else or_next (verify now window r s) rest

  -- `VerifyAny`
  unfoldable pub verify_any : ℤ → ℤ → Request → List String → Result SigError (Unit {0})
  verify_any now window r secrets = verify_each now window r secrets signature_invalid
