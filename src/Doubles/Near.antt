-- ===== src/Doubles/Near.antt =====
-- How near a double is to the number that was rounded.
use native.Mathlib.Nat.{div-add-mod', mod-lt, one-le-pow, pow-le-pow_right, pow-suc}
use faircoin_bridge.Doubles.{exponent, nearest_even, round}
use faircoin_bridge.Prelude.{
  Bool-cases, Nat_cases, arith, false, if◌then◌else◌, inl, inr, ltb, mul_le, mul_le_right, subst,
  suc, sym, zero, ℕ, ◌%◌, ◌*◌, ◌+◌, ◌/◌, ◌<◌, ◌^◌, ◌≡◌, ◌≤◌,
}

exponent-le :
    (fuel e k num den : ℕ) → e ≤ k → num < den * 2 ^ (53 + k) → exponent fuel e num den ≤ k
unfolding exponent
exponent-le zero e k num den le small = le
exponent-le (suc fuel) e k num den le small = elim (Bool-cases (ltb num (den * 2 ^ (53 + e)))) [
  | inl t ↦ rw t le
  | inr f ↦ rw f (exponent-le fuel (e + 1) k num den (above f) small)
]
  where
    above : ltb num (den * 2 ^ (53 + e)) ≡ false → e + 1 ≤ k
    above f = elim (Nat_cases k e) [
      | inl ge ↦
          let same : e ≡ k = omega arith in
          let big : ¬ (num < den * 2 ^ (53 + e)) = ground (arith, f) in
          absurd (big (subst (λ x. num < den * 2 ^ (53 + x)) (sym same) small))
      | inr gt ↦ omega arith
    ]

-- The fuel is enough: the quotient is below the bound that the exponent gives.
exponent-enough :
    (fuel e num den : ℕ)
    → num < den * 2 ^ (53 + e + fuel)
    → num < den * 2 ^ (53 + exponent fuel e num den)
unfolding exponent
exponent-enough zero e num den small =
    let same : 53 + e + 0 ≡ 53 + e = omega arith in subst (λ x. num < den * 2 ^ x) same small
exponent-enough (suc fuel) e num den small = elim (Bool-cases (ltb num (den * 2 ^ (53 + e)))) [
  | inl t ↦ rw t (ground (arith, t))
  | inr f ↦
      let next : 53 + (e + 1) + fuel ≡ 53 + e + suc fuel = omega arith in
      rw f (exponent-enough fuel (e + 1) num den (subst (λ x. num < den * 2 ^ x) (sym next) small))
]

lt-power : (n : ℕ) → n < 2 ^ n
lt-power zero = omega arith
lt-power (suc n) = omega (arith, lt-power n, pow-suc 2 n)

pub exponent-fuel : (num den : ℕ) → 0 < den → num < den * 2 ^ (53 + exponent num 0 num den)
exponent-fuel num den positive =
    let power = lt-power num in
    let more : 2 ^ num ≤ 2 ^ (53 + num) = pow-le-pow_right (omega arith) (omega arith) in
    let times : 1 * 2 ^ (53 + num) ≤ den * 2 ^ (53 + num) = mul_le_right 1 den _ positive in
    exponent-enough num 0 num den (omega (arith, power, more, times))

-- Rounding down, up, or to the even of the two.
near :
    (q r den num : ℕ)
    → q * den + r ≡ num
    → r < den
    → let n = if ltb (2 * r) den then q else if ltb den (2 * r) then q + 1 else q + q % 2 in
      (2 * (n * den) ≤ 2 * num + den) × (2 * num ≤ 2 * (n * den) + den)
near q r den num e lt = elim (Bool-cases (ltb (2 * r) den)) [
  | inl t ↦
      rw t
        (let less : 2 * r < den = ground (arith, t) in (omega (arith, e), omega (arith, e, less)))
  | inr f ↦ rw f (elim (Bool-cases (ltb den (2 * r))) [
    | inl t ↦ rw t (
        let more : den < 2 * r = ground (arith, t) in
        let up : (q + 1) * den ≡ q * den + den = grind arith in
        (omega (arith, e, up, more), omega (arith, e, up, lt)))
    | inr g ↦ rw g (let half : 2 * r ≡ den = ground (arith, f, g) in tie half (q % 2) (omega arith))
  ])
]
  where
    tie :
        2 * r ≡ den
        → (b : ℕ) → b ≤ 1
        → (2 * ((q + b) * den) ≤ 2 * num + den) × (2 * num ≤ 2 * ((q + b) * den) + den)
    tie half zero le = ground (arith, e, half)
    tie half (suc zero) le =
        let up : (q + 1) * den ≡ q * den + den = grind arith in
        (omega (arith, e, up, half), omega (arith, e, up, half))
    tie half (suc (suc b)) le = absurd (omega arith)

nearest_even-near :
    (num den : ℕ)
    → 0 < den
    → (2 * (nearest_even num den * den) ≤ 2 * num + den)
      × (2 * num ≤ 2 * (nearest_even num den * den) + den)
unfolding nearest_even
nearest_even-near num den positive =
    near (num / den) (num % den) den num (div-add-mod' num den) (mod-lt num positive)

-- A quotient below 2 ^ (53 + k) is rounded by at most half of 2 ^ k.
pub round-near :
    (k num den : ℕ)
    → 0 < den
    → num < den * 2 ^ (53 + k)
    → (2 * (round num den * den) ≤ 2 * num + den * 2 ^ k)
      × (2 * num ≤ 2 * (round num den * den) + den * 2 ^ k)
unfolding round
round-near k num den positive small =
    let e = exponent num 0 num den in
    let le : e ≤ k = exponent-le num 0 k num den (omega arith) small in
    let power : 2 ^ e ≤ 2 ^ k = pow-le-pow_right (omega arith) le in
    let step : den * 2 ^ e ≤ den * 2 ^ k = mul_le den _ _ power in
    let one : 0 < 2 ^ e = one-le-pow e 2 (omega arith) in
    let near = nearest_even-near num (den * 2 ^ e) (grind arith) in
    let same : nearest_even num (den * 2 ^ e) * 2 ^ e * den
        ≡ nearest_even num (den * 2 ^ e) * (den * 2 ^ e) =
      grind arith in
    (omega (arith, near, same, step), omega (arith, near, same, step))
