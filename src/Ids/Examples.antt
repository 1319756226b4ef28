-- ===== src/Ids/Examples.antt =====
-- Public ids at concrete values.
use payment_gateway.Base.{◌≡◌, arith, refl, text_eq_iff}
use payment_gateway.Base.Action.{ok}
use payment_gateway.Ids.{format, parse, parse_with_prefix, number_from, index_of, cut_last, decode}
use payment_gateway.Ids.RoundTrip.{parse-format}

-- The last two bits of the last character are lost: two texts of one id.
two_texts :
    (parse "pay_00000000000000000000000004" ≡ ok ("pay", 1))
    × (parse "pay_00000000000000000000000005" ≡ ok ("pay", 1))
unfolding parse number_from index_of cut_last decode
two_texts = (refl, refl)

parse-format_example :
    (parse (format "pay" 1_234_567) ≡ ok ("pay", 1_234_567))
    × (parse_with_prefix (format "pay" 1_234_567) "pay" ≡ ok 1_234_567)
parse-format_example =
    parse-format "pay" 1_234_567 (λ e. ground (arith, (text_eq_iff "pay" "").1 e)) (omega arith)
