-- ===== src/Money.antt =====
-- pkg/money/money.go: an amount in a currency's smallest unit (int64), and its arithmetic.
-- `error` is a `Result` over the package's four error values; their formatted texts are left out.
pub mod Currency
pub mod Arithmetic
pub mod Rounding
mod Examples
use payment_gateway.Base.{
  String, Bool, true, false, Option, none, some, ◌&&◌, ◌||◌, not, text_eq, if◌then◌else◌, ◌≡◌, ◌+◌,
  ◌≤◌,
}
use payment_gateway.Base.Action.{Result, ok, err, fail_if, ◌>>=◌, ◌>>◌}
use payment_gateway.Base.Int.{
  ℤ, pos, negsuc, ltb_ℤ, eqb_ℤ, add64, sub64, mul64, quot64, rem64, max_int64, IsInt64, ◌≤ℤ◌,
  pos_part, neg_part,
}
use Currency.{is_supported_currency}

pub data MoneyError : Type 0 where
  currency_mismatch overflow negative_amount invalid_currency : MoneyError

pub record Money : Type 0 where
  pub amount_minor : ℤ
  pub currency : String

-- `Zero`
abbrev pub zero_of : String → Money
zero_of currency = record { amount_minor = pos 0; currency = currency }

-- `Validate`
unfoldable pub validate : Money → Result MoneyError (Unit {0})
validate m =
    if not (is_supported_currency m.currency)
    then err invalid_currency
    else if ltb_ℤ m.amount_minor (pos 0)
    then err negative_amount
    else ok tt

-- `New`
unfoldable pub new : ℤ → String → Result MoneyError Money
unfolding validate
new amount_minor currency = do
  let m : Money = record { amount_minor = amount_minor; currency = currency }
  validate m
  ok m

abbrev pub is_zero : Money → Bool
is_zero m = eqb_ℤ m.amount_minor (pos 0)

abbrev pub is_positive : Money → Bool
is_positive m = ltb_ℤ (pos 0) m.amount_minor

-- `Add`
unfoldable pub add : Money → Money → Result MoneyError Money
add m o =
    if not (text_eq m.currency o.currency)
    then err currency_mismatch
    else let sum = add64 m.amount_minor o.amount_minor in
      if (ltb_ℤ (pos 0) o.amount_minor && ltb_ℤ sum m.amount_minor)
        || (ltb_ℤ o.amount_minor (pos 0) && ltb_ℤ m.amount_minor sum)
      then err overflow
      else ok (record { amount_minor = sum; currency = m.currency })

-- `Sub`
unfoldable pub sub : Money → Money → Result MoneyError Money
sub m o =
    if not (text_eq m.currency o.currency)
    then err currency_mismatch
    else if ltb_ℤ m.amount_minor o.amount_minor
    then err negative_amount
    else ok (record { amount_minor = sub64 m.amount_minor o.amount_minor; currency = m.currency })

-- The last part of `MulBps`: the product in basis points, rounded half up.
unfoldable pub round_bps : ℤ → ℤ → ℤ
round_bps amount bps =
    let prod = mul64 amount bps in
    let q = quot64 prod (pos 10000) in
    let r = rem64 prod (pos 10000) in
    if not (ltb_ℤ (mul64 r (pos 2)) (pos 10000)) then add64 q (pos 1) else q

-- `MulBps`: a share in basis points.
unfoldable pub mul_bps : Money → ℤ → Result MoneyError Money
mul_bps m bps =
    if ltb_ℤ bps (pos 0)
    then err negative_amount
    else if is_zero m || eqb_ℤ bps (pos 0)
    then ok (zero_of m.currency)
    else if ltb_ℤ (quot64 max_int64 bps) m.amount_minor
    then err overflow
    else ok (record { amount_minor = round_bps m.amount_minor bps; currency = m.currency })

-- `Cmp`: -1, 0 or 1.
unfoldable pub cmp : Money → Money → Result MoneyError ℤ
cmp m o =
    if not (text_eq m.currency o.currency)
    then err currency_mismatch
    else if ltb_ℤ m.amount_minor o.amount_minor
    then ok (negsuc 0)
    else if ltb_ℤ o.amount_minor m.amount_minor
    then ok (pos 1)
    else ok (pos 0)

-- `Equal`
unfoldable pub equal : Money → Money → Bool
equal m o = text_eq m.currency o.currency && eqb_ℤ m.amount_minor o.amount_minor

-- `GreaterThan`: false where the currencies differ.
unfoldable pub greater_than : Money → Money → Bool
unfolding cmp
greater_than m o = elim (cmp m o) [ ok c ↦ ltb_ℤ (pos 0) c | err _ ↦ false ]

-- `FromProto`; `none` is the nil message.
unfoldable pub from_proto : Option Money → Result MoneyError Money
unfolding new
from_proto none = err invalid_currency
from_proto (some p) = new p.amount_minor p.currency

-- What `Validate` accepts, as a statement.
pub record IsValid (m : Money) : Type 0 where
  pub supported : is_supported_currency m.currency ≡ true
  pub nonneg : pos 0 ≤ℤ m.amount_minor
  pub in_range : IsInt64 m.amount_minor
