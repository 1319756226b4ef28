-- ===== src/Money/Rounding.antt =====
-- `MulBps` of pkg/money/money.go: a share of an amount in basis points, rounded half up.
use payment_gateway.Base.{ℕ, zero, suc, String, ◌≡◌, ◌+◌, ◌-◌, ◌*◌, ◌/◌, ◌%◌, ◌≤◌, ◌<◌, ◌^◌, arith}
use payment_gateway.Base.Action.{ok, err}
use payment_gateway.Base.Int.{pos, add64, mul64, quot64, rem64, wrap64, ◌+ℤ◌, ◌*ℤ◌}
use payment_gateway.Money.{Money, overflow, mul_bps, round_bps}

mul64_pos : (a b : ℕ) → a * b < 2 ^ 63 → mul64 (pos a) (pos b) ≡ pos (a * b)
unfolding mul64 ◌*ℤ◌ wrap64
mul64_pos a b h = ground arith

quot64_pos : (a b : ℕ) → quot64 (pos a) (pos b) ≡ pos (a / b)
unfolding quot64
quot64_pos a b = ground arith

rem64_pos : (a b : ℕ) → rem64 (pos a) (pos b) ≡ pos (a % b)
unfolding rem64
rem64_pos a b = ground arith

add64_one : (a : ℕ) → a + 1 < 2 ^ 63 → add64 (pos a) (pos 1) ≡ pos (a + 1)
unfolding add64 ◌+ℤ◌ wrap64
add64_one a h = ground arith

overflow_of_div : (a b : ℕ) → 0 < b → (2 ^ 63 - 1) / b < a → 2 ^ 63 ≤ a * b
overflow_of_div a b h lt = grind arith

fits_of_div : (a b : ℕ) → 0 < b → a ≤ (2 ^ 63 - 1) / b → a * b < 2 ^ 63
fits_of_div a b h le = grind arith

-- The test by division is the test on the product.
div_of_fits : (a b : ℕ) → 0 < b → a * b < 2 ^ 63 → a ≤ (2 ^ 63 - 1) / b
div_of_fits a b h fits = ground (arith, overflow_of_div a b h)

div_of_overflow : (a b : ℕ) → 0 < b → 2 ^ 63 ≤ a * b → (2 ^ 63 - 1) / b < a
div_of_overflow a b h over = ground (arith, fits_of_div a b h)

-- The rounded share of a product.
abbrev pub half_up : ℕ → ℕ
half_up p = (p + 5000) / 10000

round_bps_pos : (a b : ℕ) → a * b < 2 ^ 63 → round_bps (pos a) (pos b) ≡ pos (half_up (a * b))
unfolding round_bps
round_bps_pos a b h =
    rw
      (
        mul64_pos a b h,
        quot64_pos (a * b) 10000,
        rem64_pos (a * b) 10000,
        mul64_pos (a * b % 10000) 2 (omega arith),
        add64_one (a * b / 10000) (omega arith),
      )
      (ground arith)

mul_bps_value :
    (a b : ℕ) (c : String)
    → a * b < 2 ^ 63
    → mul_bps (record { amount_minor = pos a; currency = c }) (pos b)
      ≡ ok (record { amount_minor = pos (half_up (a * b)); currency = c })
unfolding mul_bps
mul_bps_value zero b c h = ground arith
mul_bps_value (suc a) zero c h = ground arith
mul_bps_value (suc a) (suc b) c h =
    rw (round_bps_pos (suc a) (suc b) h, quot64_pos (2 ^ 63 - 1) (suc b))
      (ground (arith, div_of_fits (suc a) (suc b) (omega arith) h))

mul_bps_overflow :
    (a b : ℕ) (c : String)
    → 2 ^ 63 ≤ a * b
    → mul_bps (record { amount_minor = pos a; currency = c }) (pos b) ≡ err overflow
unfolding mul_bps
mul_bps_overflow zero b c h = absurd (omega arith)
mul_bps_overflow (suc a) zero c h = absurd (omega arith)
mul_bps_overflow (suc a) (suc b) c h =
    rw (quot64_pos (2 ^ 63 - 1) (suc b))
      (ground (arith, div_of_overflow (suc a) (suc b) (omega arith) h))

-- For an amount `a` and `b` basis points, both not negative, `MulBps` returns a · b / 10000
-- rounded half up when the product a · b is an int64, and the overflow error when it is not.
pub mul_bps-half_up :
    (a b : ℕ) (c : String)
    → let m : Money = record { amount_minor = pos a; currency = c } in
      (a * b < 2 ^ 63 → mul_bps m (pos b) ≡ ok (record m { amount_minor = pos (half_up (a * b)) }))
      × (2 ^ 63 ≤ a * b → mul_bps m (pos b) ≡ err overflow)
mul_bps-half_up a b c = (mul_bps_value a b c, mul_bps_overflow a b c)

-- A share of at most 10000 basis points is never above the amount.
pub half_up-le : (a b : ℕ) → b ≤ 10000 → half_up (a * b) ≤ a
half_up-le a b h = grind arith
