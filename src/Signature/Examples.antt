-- ===== src/Signature/Examples.antt =====
-- A request that is signed with the second of two secrets, and a timestamp that wraps.
use payment_gateway.Base.{
  some, ◌<◌, arith, ◌≡◌, ◌↔◌, refl, String, [], ◌∷◌, Member, text_eq, concat, if◌then◌else◌,
}
use payment_gateway.Base.Action.{ok, err}
use payment_gateway.Base.Ascii.{digits_from}
use payment_gateway.Base.Int.{ℤ, pos, sub64, neg64, mul64, wrap64, ◌-ℤ◌, ◌*ℤ◌}
use payment_gateway.Signature.{
  Request, timestamp_out_of_window, parse_signature, check_timestamp, parse_int64, canonical_string,
  sign_hex, verify, verify_any,
}
use payment_gateway.Signature.Rotation.{SignedBy, verify_any_iff}
use payment_gateway.Signature.Window.{distance}

abbrev zeros : String
zeros = "0000000000000000000000000000000000000000000000000000000000000000"

abbrev ones : String
ones = "1111111111111111111111111111111111111111111111111111111111111111"

-- A keyed hash that only tells two secrets apart.
abbrev toy_hmac : String → String → String
toy_hmac secret message = if text_eq secret "old" then zeros else ones

abbrev a_request : Request
a_request = record {
  ts = "1700000000";
  signature = concat "v1=" ones;
  verb = "post";
  target = "/v1/payments";
  body = "{}";
}

a_request-near :
    (sec : ℤ)
    → parse_int64 a_request.ts ≡ some sec
    → distance (pos 1_700_000_100) sec < 9_223_372_037
unfolding parse_int64 digits_from
a_request-near sec h = ground (arith, h)

verify_any_iff_example :
    (verify_any toy_hmac (λ b. b) (pos 1_700_000_100) (pos 0) a_request ("old" ∷ "" ∷ "new" ∷ [])
      ≡ ok tt)
    ↔ ((s : String) × Member s ("old" ∷ "" ∷ "new" ∷ [])
        × SignedBy toy_hmac (λ b. b) (pos 1_700_000_100) (pos 0) a_request s)
verify_any_iff_example =
    verify_any_iff toy_hmac (λ b. b) (pos 1_700_000_100) (pos 0) a_request a_request-near
      ("old" ∷ "" ∷ "new" ∷ [])

rotated :
    verify_any toy_hmac (λ b. b) (pos 1_700_000_100) (pos 0) a_request ("old" ∷ "" ∷ "new" ∷ [])
    ≡ ok tt
unfolding verify_any verify parse_signature check_timestamp parse_int64 digits_from sub64 neg64
    mul64 wrap64 ◌-ℤ◌ ◌*ℤ◌ sign_hex canonical_string
rotated = refl

-- A time that is 18446744074 seconds ahead passes, since the difference in nanoseconds wraps.
far_ahead : check_timestamp "20146744074" (pos 1_700_000_000) (pos 0) ≡ ok tt
unfolding check_timestamp parse_int64 digits_from sub64 neg64 mul64 wrap64 ◌-ℤ◌ ◌*ℤ◌
far_ahead = refl

-- A time that is 301 seconds behind does not.
behind : check_timestamp "1700000000" (pos 1_700_000_301) (pos 0) ≡ err timestamp_out_of_window
unfolding check_timestamp parse_int64 digits_from sub64 neg64 mul64 wrap64 ◌-ℤ◌ ◌*ℤ◌
behind = refl
