-- ===== src/Quotes.antt =====
-- The amounts of the buy flow (services/bridge/src/api/buy.ts): the FAIR that is asked for, the
-- payment with its buffer and its fee, and the text that the wallet shows. An amount is a number
-- where the source keeps a bigint or its decimal string.
pub mod RoundTrip
pub mod Fees
mod Tests
use faircoin_bridge.Amounts.{sats_to_wei}
use faircoin_bridge.Decimal.{
  Text, all, is_digit, pad_start, repeat, split, strip_zeros, to_bigint, to_string, value,
}
use faircoin_bridge.Prelude.{
  Bool, List, [], false, first, if◌then◌else◌, leb, length, not, suc, true, zero, ℕ, ◌%◌, ◌&&◌, ◌*◌,
  ◌++◌, ◌+◌, ◌/◌, ◌==◌, ◌^◌, ◌∷◌,
}

abbrev is_nil : Text → Bool
is_nil [] = true
is_nil (c ∷ s) = false

-- What the regular expression of `fairAmount` accepts: digits, with up to 8 more behind a point.
amount_parts : List Text → Bool
amount_parts (whole ∷ []) = not (is_nil whole) && all is_digit whole
amount_parts (whole ∷ frac ∷ []) =
    not (is_nil whole)
    && all is_digit whole
    && not (is_nil frac)
    && leb (length frac) 8
    && all is_digit frac
amount_parts _ = false

unfoldable pub is_fair_amount : Text → Bool
unfolding amount_parts
is_fair_amount v = amount_parts (split b'.' v)

abbrev sats_per_fair : ℕ
sats_per_fair = 100_000_000

abbrev bps_denom : ℕ
bps_denom = 10_000

-- `parts[0] ?? "0"` and `parts[1] ?? ""`; `split` gives one part at least.
part_or : Text → List Text → ℕ → Text
part_or default [] i = default
part_or default (s ∷ parts) zero = s
part_or default (s ∷ parts) (suc i) = part_or default parts i

-- `fairAmountToSats`
unfoldable pub fair_amount_to_sats : Text → ℕ
unfolding part_or
fair_amount_to_sats fair_amount =
    let parts = split b'.' fair_amount in
    let whole = part_or (b'0' ∷ []) parts 0 in
    let frac = part_or [] parts 1 in
    to_bigint whole * sats_per_fair + to_bigint (first 8 (frac ++ repeat 8 b'0'))

-- `fairSatsToWfairWei`
unfoldable pub fair_sats_to_wfair_wei : ℕ → ℕ
fair_sats_to_wfair_wei sats = sats * sats_to_wei

-- `applyFee` of this file: the payer sends more by the fee.
unfoldable pub add_fee : ℕ → ℕ → ℕ
add_fee amount fee_bps = amount * (bps_denom + fee_bps) / bps_denom

-- `applyBuffer`
unfoldable pub apply_buffer : ℕ → ℕ → ℕ
apply_buffer amount buffer_bps = amount * (bps_denom + buffer_bps) / bps_denom

-- `formatPaymentAmount`
unfoldable pub format_payment_amount : ℕ → ℕ → Text
format_payment_amount value decimals =
    let denom = 10 ^ decimals in
    let frac = value % denom in
    let frac_text = strip_zeros (pad_start decimals b'0' (to_string frac)) in
    if decimals == 0
    then to_string value
    else if frac == 0
    then to_string (value / denom)
    else to_string (value / denom) ++ b'.' ∷ frac_text
