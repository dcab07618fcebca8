-- ===== src/Effects/Retries.antt =====
-- A job that sends something to a chain and then puts what it sent on file, run again and again:
-- BullMQ runs a job again after a throw, and after a crash of the process.
use faircoin_bridge.Effects.{World}
use faircoin_bridge.Prelude.{
  List, Option, Option-cases, [], arith, if◌then◌else◌, inl, inr, is_none, length, ltb,
  mul_le_right, refl, set, some, suc, zero, ℕ, ◌&&◌, ◌*◌, ◌+◌, ◌∙◌, ◌∷◌, ◌≡◌, ◌≤◌, ◌⊎◌,
}

module _ {S : Type 0} (run : World S → World S) where
  unfoldable pub attempts : ℕ → World S → World S
  attempts zero w = w
  attempts (suc n) w = attempts n (run w)

module _ {S X : Type 0} (run : World S → World S) (sent : S → List X) (on_file : S → Option ℕ) where
  -- One run sent something, and nothing is on file after it.
  unfoldable pub lost : World S → World S → ℕ
  lost w w' =
      if ltb (length (sent w.store)) (length (sent w'.store)) && is_none (on_file w'.store)
      then 1
      else 0

  -- The runs that lost what they sent.
  unfoldable pub unrecorded : ℕ → World S → ℕ
  unrecorded zero w = 0
  unrecorded (suc n) w = lost w (run w) + unrecorded n (run w)

  module _
      (once : (w : World S)
        → (sent (run w).store ≡ sent w.store) ⊎ ((x : X) × (sent (run w).store ≡ x ∷ sent w.store)))
      (kept : (w : World S) (h : ℕ)
        → on_file w.store ≡ some h
        → (on_file (run w).store ≡ some h) × (sent (run w).store ≡ sent w.store)) where
    attempts-kept :
        (n h : ℕ) (w : World S)
        → on_file w.store ≡ some h
        → sent (attempts run n w).store ≡ sent w.store
    unfolding attempts
    attempts-kept zero h w p = refl
    attempts-kept (suc n) h w p = attempts-kept n h (run w) (kept w h p).0 ∙ (kept w h p).1

    length-once :
        (w : World S)
        → (length (sent w.store) ≤ length (sent (run w).store))
          × (length (sent (run w).store) ≤ length (sent w.store) + 1)
    length-once w = elim (once w) [
      | inl e ↦ rw e (omega arith, omega arith)
      | inr (x, e) ↦ rw e (omega arith, omega arith)
    ]

    pub attempts-sent :
        (n : ℕ) (w : World S)
        → length (sent (attempts run n w).store) ≤ length (sent w.store) + 1 + unrecorded n w
    unfolding attempts unrecorded lost
    attempts-sent zero w = omega arith
    attempts-sent (suc n) w = elim (Option-cases (on_file (run w).store)) [
      | inl unset ↦ ground (arith, length-once w, attempts-sent n (run w))
      | inr (h, set) ↦ ground (arith, length-once w, attempts-kept n h (run w) set)
    ]

-- The worth of all that was sent.
unfoldable pub total : {X : Type 0} → (X → ℕ) → List X → ℕ
total worth [] = 0
total worth (x ∷ xs) = worth x + total worth xs

module _ {S X : Type 0} (run : World S → World S) (sent : S → List X) (on_file : S → Option ℕ)
    (worth : X → ℕ) (x : X)
    (once : (w : World S)
      → (sent (run w).store ≡ sent w.store) ⊎ (sent (run w).store ≡ x ∷ sent w.store))
    (kept : (w : World S) (h : ℕ)
      → on_file w.store ≡ some h
      → (on_file (run w).store ≡ some h) × (sent (run w).store ≡ sent w.store)) where
  -- The runs have sent some number of copies of it.
  attempts-copies :
      (n : ℕ) (w : World S)
      → (k : ℕ) × (length (sent (attempts run n w).store) ≡ length (sent w.store) + k)
        × (total worth (sent (attempts run n w).store) ≡ total worth (sent w.store) + k * worth x)
  unfolding attempts total
  attempts-copies zero w = (0, omega arith, grind arith)
  attempts-copies (suc n) w =
      let (k, count, sum) = attempts-copies n (run w) in
      elim (once w) [
        | inl e ↦ (k, grind (arith, count, e), grind (arith, sum, e))
        | inr e ↦ (k + 1, grind (arith, count, e), grind (arith, sum, e))
      ]

  pub attempts-total :
      (n : ℕ) (w : World S)
      → total worth (sent (attempts run n w).store)
        ≤ total worth (sent w.store) + (1 + unrecorded run sent on_file n w) * worth x
  attempts-total n w =
      let (k, count, sum) = attempts-copies n w in
      let sends =
        attempts-sent run sent on_file (λ w. elim (once w) [ inl e ↦ inl e | inr e ↦ inr (x, e) ])
          kept n w in
      let few : k ≤ 1 + unrecorded run sent on_file n w = omega (arith, count, sends) in
      omega (arith, sum, mul_le_right _ _ (worth x) few)
