-- ===== src/Release/Rounding.antt =====
-- What the double that is sent for some sats stands for (services/bridge/src/signer/fair.ts,
-- `satsToFair`).
use faircoin_bridge.BuyApi.Created.{sats}
use faircoin_bridge.Doubles.{add, divide, exponent, nearest_even, number, round, unit}
use faircoin_bridge.Doubles.Near.{round-near}
use faircoin_bridge.Prelude.{arith, refl, ℕ, ◌%◌, ◌*◌, ◌+◌, ◌/◌, ◌<◌, ◌^◌, ◌≡◌}
use faircoin_bridge.Release.{sats_per_fair, sats_to_fair}

-- The whole sats that are nearest to a double.
unfoldable pub nearest_sats : ℕ → ℕ
nearest_sats double = (2 * (double * sats_per_fair) + unit) / (2 * unit)

-- In 1e-8 FAIR: 33,554,432 FAIR.
abbrev pub exact_below : ℕ
exact_below = 2 ^ 25 * sats_per_fair

number-sats_per_fair : number sats_per_fair ≡ sats_per_fair * unit
unfolding number round exponent nearest_even
number-sats_per_fair = refl

-- The parts are near to the whole FAIR and the rest, and the sum is near to that of the parts.
nearest_sats-add :
    (whole frac : ℕ)
    → whole < 2 ^ 25
    → frac < sats_per_fair
    → nearest_sats (add (number whole) (divide (number frac) (sats_per_fair * unit)))
      ≡ whole * sats_per_fair + frac
unfolding nearest_sats add number divide
nearest_sats-add whole frac few less =
    let w = number whole in
    let f = number frac in
    let d = divide f (sats_per_fair * unit) in
    let near_w = round-near 52 (whole * unit) 1 (omega arith) (omega arith) in
    let near_f = round-near 54 (frac * unit) 1 (omega arith) (omega arith) in
    let near_d =
      round-near 27 (f * unit) (sats_per_fair * unit) (omega arith) (omega (arith, near_f)) in
    let near_s = round-near 52 (w + d) 1 (omega arith) (omega (arith, near_w, near_f, near_d)) in
    omega (arith, near_w, near_f, near_d, near_s)

pub nearest_sats-sats_to_fair :
    (sats : ℕ) → sats < exact_below → nearest_sats (sats_to_fair sats).double ≡ sats
unfolding sats_to_fair
nearest_sats-sats_to_fair sats few =
    let near =
      nearest_sats-add (sats / sats_per_fair) (sats % sats_per_fair) (omega arith) (omega arith) in
    rw number-sats_per_fair (omega (arith, near))
