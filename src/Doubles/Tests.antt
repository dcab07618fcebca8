-- ===== src/Doubles/Tests.antt =====
-- Doubles at concrete inputs.
-- 0.1 + 0.2 is not 0.3, but the next double.
use faircoin_bridge.Doubles.{add, divide, exponent, nearest_even, number, round, unit}
use faircoin_bridge.Prelude.{refl, ◌*◌, ◌+◌, ◌^◌, ◌≡◌}

tenths :
    add (divide (number 1) (number 10)) (divide (number 2) (number 10))
    ≡ divide (number 3) (number 10) + 2 ^ 26
unfolding add divide number round exponent nearest_even
tenths = refl

-- 2 ^ 53 + 1 is no double: of its two neighbours the even one is taken.
odd_is_rounded : number (2 ^ 53 + 1) ≡ 2 ^ 53 * unit
unfolding number round exponent nearest_even
odd_is_rounded = refl
