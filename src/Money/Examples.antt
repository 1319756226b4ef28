-- ===== src/Money/Examples.antt =====
-- The theorems on amounts of money, at concrete amounts.
use payment_gateway.Base.{◌⊎◌, text_eq_iff, ◌-◌, ◌≡◌, ◌≢◌, refl, arith, ◌<◌, ◌*◌, ◌^◌, ◌≤◌}
use payment_gateway.Base.Action.{ok, err}
use payment_gateway.Base.Int.{pos, IsInt64, add64, wrap64, ◌+ℤ◌}
use payment_gateway.Money.{Money, overflow, add, mul_bps}
use payment_gateway.Money.Arithmetic.{add_exact_or_overflow, cmp_or_refuse, Compares, Refuses}
use payment_gateway.Money.Rounding.{half_up, mul_bps-half_up}

abbrev usd : Money
usd = record { amount_minor = pos 1999; currency = "USD" }

abbrev dollar : Money
dollar = record { amount_minor = pos 100; currency = "USD" }

abbrev euro : Money
euro = record { amount_minor = pos 100; currency = "EUR" }

abbrev most : Money
most = record { amount_minor = pos (2 ^ 63 - 1); currency = "USD" }

most_plus_one : add most dollar ≡ err overflow
unfolding add add64 wrap64 ◌+ℤ◌
most_plus_one = refl

add_exact_or_overflow_example :
    (IsInt64 (pos 1999 +ℤ pos 100)
      → add usd dollar ≡ ok (record usd { amount_minor = pos 1999 +ℤ pos 100 }))
    × (¬ IsInt64 (pos 1999 +ℤ pos 100) → add usd dollar ≡ err overflow)
add_exact_or_overflow_example =
    add_exact_or_overflow usd dollar refl (omega arith, omega arith) (omega arith, omega arith)

euro_apart : usd.currency ≢ euro.currency
euro_apart h = ground (arith, (text_eq_iff usd.currency euro.currency).1 h)

cmp_or_refuse_example :
    ((usd.currency ≡ euro.currency) × Compares usd euro)
    ⊎ ((usd.currency ≢ euro.currency) × Refuses usd euro)
cmp_or_refuse_example = cmp_or_refuse usd euro

mul_bps-half_up_example :
    (1999 * 290 < 2 ^ 63
      → mul_bps usd (pos 290) ≡ ok (record usd { amount_minor = pos (half_up (1999 * 290)) }))
    × (2 ^ 63 ≤ 1999 * 290 → mul_bps usd (pos 290) ≡ err overflow)
mul_bps-half_up_example = mul_bps-half_up 1999 290 "USD"
