-- ===== src/Doubles.antt =====
-- JavaScript's numbers, as services/bridge/src/signer/fair.ts and
-- workers/masternode-reward-worker.ts compute with them: doubles that are 0 or at least 2 ^ -27, and
-- below 2 ^ 1024. Each is a multiple of 2 ^ -80, and is held as the number of these units. Every
-- operation rounds to 53 bits, to the nearest, and to the even one of two that are as near.
pub mod Near
mod Tests
use faircoin_bridge.Prelude.{if◌then◌else◌, ltb, suc, zero, ℕ, ◌%◌, ◌*◌, ◌+◌, ◌/◌, ◌^◌}

-- The units in 1.
abbrev pub unit : ℕ
unit = 2 ^ 80

-- The least exponent with which the quotient has at most 53 bits; as many rounds as the dividend are
-- enough, since each doubles what the quotient may be.
unfoldable pub exponent : (fuel e num den : ℕ) → ℕ
exponent zero e num den = e
exponent (suc fuel) e num den =
    let rest = exponent fuel (e + 1) num den in if ltb num (den * 2 ^ (53 + e)) then e else rest

-- The whole number that is nearest to the quotient, the even one of two.
unfoldable pub nearest_even : (num den : ℕ) → ℕ
nearest_even num den =
    let q = num / den in
    let r = num % den in if ltb (2 * r) den then q else if ltb den (2 * r) then q + 1 else q + q % 2

-- The double that is nearest to the quotient.
unfoldable pub round : (num den : ℕ) → ℕ
round num den = let e = exponent num 0 num den in nearest_even num (den * 2 ^ e) * 2 ^ e

-- `Number(n)`
unfoldable pub number : ℕ → ℕ
number n = round (n * unit) 1

-- `a + b`
unfoldable pub add : (a b : ℕ) → ℕ
add a b = round (a + b) 1

-- `a / b`
unfoldable pub divide : (a b : ℕ) → ℕ
divide a b = round (a * unit) b
