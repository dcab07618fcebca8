-- ===== src/Effects/Returns.antt =====
-- Total correctness where every awaited call succeeds: the handler returns, and in such a state.
use faircoin_bridge.Effects.{
  Fate, M, Outcome, World, act, ask, died, dies_after, dies_before, done, fine, modify, query,
  refused, threw, tick, unheard,
}
use faircoin_bridge.Effects.Hoare.{Ensures, Post}
use faircoin_bridge.Prelude.{refl, ℕ, ◌≡◌}

module _ {S A : Type 0} where
  abbrev pub Returns : (S → Type 0) → M S A → (A → S → Type 0) → Type 0
  Returns P m Q = Ensures P m Q (λ _. ⊥)

  pub act-Returns :
      {P : S → Type 0} {Q : A → S → Type 0} (fate : ℕ → Fate) (f : ℕ → S → A × S)
      → ((n : ℕ) → fate n ≡ Fate.fine)
      → ((n : ℕ) (s : S) → P s → Q (f n s).0 (f n s).1)
      → Returns P (act fate f) Q
  unfolding act
  act-Returns {Q} fate f calm h = record {
    runs = λ w p. go w (h w.clock w.store p) (fate w.clock) (calm w.clock);
  }
    where
      go :
          (w : World S)
          → Q (f w.clock w.store).0 (f w.clock w.store).1
          → (k : Fate) → k ≡ Fate.fine
          → Post Q
              (λ _. ⊥)
              (elim k [
                | fine ↦ (done (f w.clock w.store).0, tick w (f w.clock w.store).1)
                | refused e ↦ (threw e, tick w w.store)
                | unheard e ↦ (threw e, tick w (f w.clock w.store).1)
                | dies_before ↦ (died, tick w w.store)
                | dies_after ↦ (died, tick w (f w.clock w.store).1)
              ])
      go w x fine e = x
      go w x (refused _) e = cc
      go w x (unheard _) e = cc
      go w x dies_before e = cc
      go w x dies_after e = cc

  pub query-Returns :
      {P : S → Type 0} {Q : A → S → Type 0} (fate : ℕ → Fate) (f : S → A)
      → ((n : ℕ) → fate n ≡ Fate.fine)
      → ((s : S) → P s → Q (f s) s)
      → Returns P (query fate f) Q
  unfolding query
  query-Returns fate f calm h = act-Returns _ _ calm (λ n s p. h s p)

  pub ask-Returns :
      {P : S → Type 0} {Q : A → S → Type 0} (fate : ℕ → Fate) (f : ℕ → A)
      → ((n : ℕ) → fate n ≡ Fate.fine)
      → ((n : ℕ) (s : S) → P s → Q (f n) s)
      → Returns P (ask fate f) Q
  unfolding ask
  ask-Returns fate f calm h = act-Returns _ _ calm (λ n s p. h n s p)

  -- A handler that is shown to return leaves no other outcome.
  pub Returns-done :
      {P : S → Type 0} {m : M S A} (Q : A → S → Type 0)
      → Returns P m Q
      → (w : World S) → P w.store
      → (a : A) × ((m w).0 ≡ done a) × Q a (m w).1.store
  Returns-done {m} Q h w p = go (m w) (h.runs w p)
    where
      go : (r : Outcome A × World S) → Post Q (λ _. ⊥) r → (a : A) × (r.0 ≡ done a) × Q a r.1.store
      go (done a, w') x = (a, refl, x)
      go (threw e, w') x = absurd x
      go (died, w') x = absurd x

module _ {S : Type 0} where
  pub modify-Returns :
      {P : S → Type 0} {Q : Unit {0} → S → Type 0} (fate : ℕ → Fate) (f : S → S)
      → ((n : ℕ) → fate n ≡ Fate.fine)
      → ((s : S) → P s → Q tt (f s))
      → Returns P (modify fate f) Q
  unfolding modify
  modify-Returns fate f calm h = act-Returns _ _ calm (λ n s p. h s p)
