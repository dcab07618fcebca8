-- ===== src/Decimal/Tests.antt =====
-- The texts at concrete inputs.
use faircoin_bridge.Decimal.{split, strip_zeros, to_string}
use faircoin_bridge.Prelude.{[], refl, ◌∷◌, ◌≡◌}

printed : to_string 1_002 ≡ b'1' ∷ b'0' ∷ b'0' ∷ b'2' ∷ []
unfolding to_string
printed = refl

zero_is_printed : to_string 0 ≡ b'0' ∷ []
unfolding to_string
zero_is_printed = refl

stripped : strip_zeros (b'0' ∷ b'5' ∷ b'0' ∷ b'0' ∷ []) ≡ b'0' ∷ b'5' ∷ []
unfolding strip_zeros
stripped = refl

two_points : split b'.' (b'1' ∷ b'.' ∷ b'.' ∷ []) ≡ (b'1' ∷ []) ∷ [] ∷ [] ∷ []
unfolding split
two_points = refl
