-- ===== src/Quotes/RoundTrip.antt =====
-- The texts of amounts are read back (services/bridge/src/api/buy.ts).
use native.Mathlib.Nat.{div-add-mod', mod-lt, one-le-pow}
use faircoin_bridge.Decimal.{
  IsDigit, Text, pad_start, repeat, split, strip_zeros, to_bigint, to_string,
}
use faircoin_bridge.Decimal.Laws.{
  first-repeat, first-strip_zeros, length-pad_start, length-strip_zeros, length-to_string,
  pad_start-digits, pad_start-value, split-digits, split-point, strip_zeros-digits,
  to_bigint-repeat, to_bigint-to_string, to_string-digits,
}
use faircoin_bridge.Prelude.{
  ==_iff, All, Bool-cases, [], ap, arith, first, inl, inr, length, refl, subst, sym, ℕ, ◌%◌, ◌*◌,
  ◌++◌, ◌+◌, ◌/◌, ◌<◌, ◌==◌, ◌^◌, ◌∙◌, ◌∷◌, ◌≡◌, ◌≤◌,
}
use faircoin_bridge.Quotes.{format_payment_amount, part_or}

fraction_text : ℕ → ℕ → Text
fraction_text width frac = strip_zeros (pad_start width b'0' (to_string frac))

module _ (width frac : ℕ) (positive : 0 < width) (below : frac < 10 ^ width) where
  padded : Text
  padded = pad_start width b'0' (to_string frac)

  length-padded : length padded ≡ width
  unfolding padded
  length-padded =
      length-pad_start width (to_string frac) (length-to_string width frac positive below)

  fraction_text-digits : All IsDigit (fraction_text width frac)
  unfolding fraction_text
  fraction_text-digits =
      strip_zeros-digits _ (pad_start-digits width (to_string frac) (to_string-digits frac))

  length-fraction_text : length (fraction_text width frac) ≤ width
  unfolding fraction_text padded
  length-fraction_text =
      omega (arith, length-strip_zeros (pad_start width b'0' (to_string frac)), length-padded)

  -- The digits behind the point, filled up again, are the fraction.
  filled-fraction_text :
      to_bigint (first width (fraction_text width frac ++ repeat width b'0')) ≡ frac
  unfolding fraction_text padded
  filled-fraction_text =
      let back =
        first-strip_zeros (pad_start width b'0' (to_string frac)) width
          (omega (arith, length-padded)) in
      ap to_bigint (rw length-padded at back)
      ∙ pad_start-value width (to_string frac)
      ∙ to_bigint-to_string frac

-- A reader of decimals with some number of places behind the point: it counts in units of the last
-- place, and takes the places that are left out for zeros.
pub decimal_value : ℕ → Text → ℕ
decimal_value decimals text =
    let parts = split b'.' text in
    to_bigint (part_or [] parts 0) * 10 ^ decimals
    + to_bigint (first decimals (part_or [] parts 1 ++ repeat decimals b'0'))

-- A text of digits with a fraction behind a point, or without.
decimal_value-parts :
    (decimals : ℕ) (s t : Text)
    → All IsDigit s
    → All IsDigit t
    → (decimal_value decimals s ≡ to_bigint s * 10 ^ decimals)
      × (decimal_value decimals (s ++ b'.' ∷ t)
          ≡ to_bigint s * 10 ^ decimals + to_bigint (first decimals (t ++ repeat decimals b'0')))
unfolding decimal_value part_or
decimal_value-parts decimals s t h k = (
  rw (split-digits s h) (
      omega (
        arith,
        ap to_bigint (first-repeat decimals decimals (omega arith)) ∙ to_bigint-repeat decimals,
      )),
  rw (split-point s t h k) refl,
)

module _ (decimals amount : ℕ) where
  abbrev whole_text : Text
  whole_text = to_string (amount / 10 ^ decimals)

  abbrev frac : ℕ
  frac = amount % 10 ^ decimals

  whole_digits : All IsDigit whole_text
  whole_digits = to_string-digits (amount / 10 ^ decimals)

  parts-value : to_bigint whole_text * 10 ^ decimals + frac ≡ amount
  parts-value =
      rw (to_bigint-to_string (amount / 10 ^ decimals)) (div-add-mod' amount (10 ^ decimals))

  whole-round_trip : frac ≡ 0 → decimal_value decimals whole_text ≡ amount
  whole-round_trip e =
      (decimal_value-parts decimals whole_text [] whole_digits tt).0
      ∙ (let whole = parts-value in omega (arith, whole, e))

  part-round_trip :
      0 < decimals
      → decimal_value decimals (whole_text ++ b'.' ∷ fraction_text decimals frac) ≡ amount
  part-round_trip some_places =
      let below : frac < 10 ^ decimals = mod-lt amount (one-le-pow decimals 10 (omega arith)) in
      (decimal_value-parts decimals whole_text (fraction_text decimals frac) whole_digits
        (fraction_text-digits decimals frac some_places below)).1
      ∙ ap (λ x. to_bigint whole_text * 10 ^ decimals + x)
          (filled-fraction_text decimals frac some_places below)
      ∙ parts-value

-- The text in which the service shows the amount of a payment, read as a decimal with the currency's
-- number of places, is that amount.
pub decimal_value-format_payment_amount :
    (decimals amount : ℕ) → decimal_value decimals (format_payment_amount amount decimals) ≡ amount
unfolding format_payment_amount fraction_text
decimal_value-format_payment_amount decimals amount = elim (Bool-cases (decimals == 0)) [
  | inl t ↦ rw t (no_places ((==_iff _ _).0 t))
  | inr some_places ↦ rw some_places (elim (Bool-cases (amount % 10 ^ decimals == 0)) [
    | inl e ↦ rw e (whole-round_trip decimals amount ((==_iff _ _).0 e))
    | inr n ↦ rw n (part-round_trip decimals amount (ground (arith, some_places)))
  ])
]
  where
    no_places : decimals ≡ 0 → decimal_value decimals (to_string amount) ≡ amount
    no_places e =
        (decimal_value-parts decimals (to_string amount) [] (to_string-digits amount) tt).0
        ∙ (let same = to_bigint-to_string amount in
            subst (λ d. to_bigint (to_string amount) * 10 ^ d ≡ amount) (sym e)
              (omega (arith, same)))
