-- ===== src/Prelude/Numbers.antt =====
-- Products of native numbers keep their order.
use Prim.Native.Nat.{ℕ, zero, suc, ◌*◌, ◌≤◌}
use native.Mathlib.Omega.{arith}

pub mul_le : (a b c : ℕ) → b ≤ c → a * b ≤ a * c
mul_le zero b c h = omega arith
mul_le (suc a) b c h = grind (arith, mul_le a b c h)

pub mul_le_right : (a b c : ℕ) → a ≤ b → a * c ≤ b * c
mul_le_right a b c h = grind arith
