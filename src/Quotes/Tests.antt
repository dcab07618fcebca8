-- ===== src/Quotes/Tests.antt =====
-- The amounts of the buy flow at concrete inputs.
use faircoin_bridge.Decimal.{
  Text, is_digit, pad_start, repeat, split, strip_zeros, to_bigint, to_string,
}
use faircoin_bridge.Prelude.{[], refl, true, ◌∷◌, ◌≡◌}
use faircoin_bridge.Quotes.{fair_amount_to_sats, format_payment_amount, is_fair_amount}
use faircoin_bridge.Quotes.RoundTrip.{decimal_value, decimal_value-format_payment_amount}

twelve_and_a_half : Text
twelve_and_a_half = b'1' ∷ b'2' ∷ b'.' ∷ b'5' ∷ []

parsed : fair_amount_to_sats twelve_and_a_half ≡ 1_250_000_000
unfolding fair_amount_to_sats twelve_and_a_half to_bigint repeat split
parsed = refl

accepted : is_fair_amount twelve_and_a_half ≡ true
unfolding is_fair_amount twelve_and_a_half split is_digit
accepted = refl

formatted : format_payment_amount 1_250_000_000 8 ≡ twelve_and_a_half
unfolding format_payment_amount twelve_and_a_half to_string pad_start strip_zeros
formatted = refl

-- 1.25 USDC, which has 6 decimals
decimal_value-format_payment_amount_example :
    decimal_value 6 (format_payment_amount 1_250_000 6) ≡ 1_250_000
decimal_value-format_payment_amount_example = decimal_value-format_payment_amount 6 1_250_000
