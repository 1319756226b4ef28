-- ===== src/Money/Currency.antt =====
-- pkg/money/currency.go: the supported currencies and their decimal places.
use Prim.Native.String.{len}
use payment_gateway.Base.{
  ℕ, String, Bool, true, false, none, some, List, [], ◌∷◌, ◌&&◌, ◌==◌, leb, text_eq, codes, all,
  map, if◌then◌else◌,
}
use payment_gateway.Base.Dict.{lookup}
use payment_gateway.Base.Int.{ℤ, pos, negsuc}

-- `exponents`
pub exponents : List (String × ℕ)
exponents =
    ("TWD", 0)
    ∷ ("JPY", 0)
    ∷ ("KRW", 0)
    ∷ ("VND", 0)
    ∷ ("CLP", 0)
    ∷ ("ISK", 0)
    ∷ ("UGX", 0)
    ∷ ("XAF", 0)
    ∷ ("XOF", 0)
    ∷ ("USD", 2)
    ∷ ("EUR", 2)
    ∷ ("GBP", 2)
    ∷ ("SGD", 2)
    ∷ ("HKD", 2)
    ∷ ("CNY", 2)
    ∷ ("AUD", 2)
    ∷ ("CAD", 2)
    ∷ ("NZD", 2)
    ∷ ("CHF", 2)
    ∷ ("SEK", 2)
    ∷ ("NOK", 2)
    ∷ ("DKK", 2)
    ∷ ("THB", 2)
    ∷ ("MYR", 2)
    ∷ ("PHP", 2)
    ∷ ("IDR", 2)
    ∷ ("INR", 2)
    ∷ ("MXN", 2)
    ∷ ("BRL", 2)
    ∷ ("ZAR", 2)
    ∷ ("PLN", 2)
    ∷ ("CZK", 2)
    ∷ ("HUF", 2)
    ∷ ("TRY", 2)
    ∷ ("ILS", 2)
    ∷ ("AED", 2)
    ∷ ("SAR", 2)
    ∷ ("KWD", 3)
    ∷ ("BHD", 3)
    ∷ ("JOD", 3)
    ∷ ("OMR", 3)
    ∷ ("TND", 3)
    ∷ ("IQD", 3)
    ∷ ("LYD", 3)
    ∷ []

-- `Exponent`: -1 for a currency that is not in the table.
unfoldable pub exponent : String → ℤ
unfolding exponents
exponent currency = elim (lookup text_eq currency exponents) [ some e ↦ pos e | none ↦ negsuc 0 ]

abbrev is_upper : ℕ → Bool
is_upper c = leb b'A' c && leb c b'Z'

-- `IsSupportedCurrency`: three bytes, each from A to Z, and in the table.
unfoldable pub is_supported_currency : String → Bool
unfolding exponents
is_supported_currency currency =
    if len currency == 3
    then if all is_upper (codes currency)
      then elim (lookup text_eq currency exponents) [ some _ ↦ true | none ↦ false ]
      else false
    else false

-- `SupportedCurrencies`, in the table's order.
pub supported_currencies : List String
unfolding exponents
supported_currencies = map (λ p. p.0) exponents
