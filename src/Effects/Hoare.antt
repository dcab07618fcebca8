-- ===== src/Effects/Hoare.antt =====
-- Statements about every way in which a handler can end: `Ensures P m Q E` says that from a state
-- with `P`, the run of `m` ends in a state with `Q a` if it returns `a`, and in one with `E` if it
-- throws or the process dies in the middle.
use faircoin_bridge.Effects.{
  Error, Fate, M, Outcome, World, act, ask, catch, died, dies_after, dies_before, done, fine, look,
  modify, pure, query, refused, skip, threw, throw, tick, unheard, ◌>>=◌,
}
use faircoin_bridge.Prelude.{Bool, false, if◌then◌else◌, refl, true, ℕ, ◌≡◌}

module _ {S A : Type 0} where
  abbrev pub Post : (A → S → Type 0) → (S → Type 0) → Outcome A × World S → Type 0
  Post Q E (done a, w) = Q a w.store
  Post Q E (threw e, w) = E w.store
  Post Q E (died, w) = E w.store

pub record Ensures {S A : Type 0} (P : S → Type 0) (m : M S A) (Q : A → S → Type 0) (E : S → Type 0)
    : Type 0 where
  pub runs : (w : World S) → P w.store → Post Q E (m w)

module _ {S A : Type 0} where
  pub pure-Ensures :
      {P : S → Type 0} {Q : A → S → Type 0} {E : S → Type 0} (a : A)
      → ((s : S) → P s → Q a s)
      → Ensures P (pure a) Q E
  unfolding pure
  pure-Ensures a h = record { runs = λ w p. h w.store p }

  pub look-Ensures :
      {P : S → Type 0} {Q : A → S → Type 0} {E : S → Type 0} (f : ℕ → A)
      → ((n : ℕ) (s : S) → P s → Q (f n) s)
      → Ensures P (look f) Q E
  unfolding look
  look-Ensures f h = record { runs = λ w p. h w.clock w.store p }

  pub throw-Ensures :
      {P : S → Type 0} {Q : A → S → Type 0} {E : S → Type 0} (e : Error)
      → ((s : S) → P s → E s)
      → Ensures P (throw e) Q E
  unfolding throw
  throw-Ensures e h = record { runs = λ w p. h w.store p }

  -- A call may end before or after its effect, so the state before it and the one after it must both
  -- be acceptable where it fails.
  pub act-Ensures :
      {P : S → Type 0} {Q : A → S → Type 0} {E : S → Type 0} (fate : ℕ → Fate) (f : ℕ → S → A × S)
      → ((n : ℕ) (s : S) → P s → Q (f n s).0 (f n s).1 × E s × E (f n s).1)
      → Ensures P (act fate f) Q E
  unfolding act
  act-Ensures {P} {Q} {E} fate f h = record {
    runs = λ w p. go w (h w.clock w.store p) (fate w.clock);
  }
    where
      ends : World S → Fate → Outcome A × World S
      ends w k = elim k [
        | fine ↦ (done (f w.clock w.store).0, tick w (f w.clock w.store).1)
        | refused e ↦ (threw e, tick w w.store)
        | unheard e ↦ (threw e, tick w (f w.clock w.store).1)
        | dies_before ↦ (died, tick w w.store)
        | dies_after ↦ (died, tick w (f w.clock w.store).1)
      ]

      go :
          (w : World S)
          → Q (f w.clock w.store).0 (f w.clock w.store).1 × E w.store × E (f w.clock w.store).1
          → (k : Fate) → Post Q E (ends w k)
      go w x fine = x.0
      go w x (refused e) = x.1
      go w x (unheard e) = x.2
      go w x dies_before = x.1
      go w x dies_after = x.2

  pub query-Ensures :
      {P : S → Type 0} {Q : A → S → Type 0} {E : S → Type 0} (fate : ℕ → Fate) (f : S → A)
      → ((s : S) → P s → Q (f s) s × E s)
      → Ensures P (query fate f) Q E
  unfolding query
  query-Ensures fate f h = act-Ensures _ _ (λ n s p. ((h s p).0, (h s p).1, (h s p).1))

  pub ask-Ensures :
      {P : S → Type 0} {Q : A → S → Type 0} {E : S → Type 0} (fate : ℕ → Fate) (f : ℕ → A)
      → ((a : A) (s : S) → P s → Q a s × E s)
      → Ensures P (ask fate f) Q E
  unfolding ask
  ask-Ensures fate f h =
      act-Ensures _ _ (λ n s p. ((h (f n) s p).0, (h (f n) s p).1, (h (f n) s p).1))

  pub weaken-Ensures :
      {P P' : S → Type 0} {Q Q' : A → S → Type 0} {E E' : S → Type 0} {m : M S A}
      → ((s : S) → P s → P' s)
      → ((a : A) (s : S) → Q' a s → Q a s)
      → ((s : S) → E' s → E s)
      → Ensures P' m Q' E'
      → Ensures P m Q E
  weaken-Ensures {Q} {Q'} {E} {E'} {m} p q e h = record {
    runs = λ w hp. go (m w) (h.runs w (p w.store hp));
  }
    where
      go : (r : Outcome A × World S) → Post Q' E' r → Post Q E r
      go (done a, w') x = q a w'.store x
      go (threw _, w') x = e w'.store x
      go (died, w') x = e w'.store x

  pub pre-Ensures :
      {P P' : S → Type 0} {Q : A → S → Type 0} {E : S → Type 0} {m : M S A}
      → ((s : S) → P s → P' s)
      → Ensures P' m Q E
      → Ensures P m Q E
  pre-Ensures p h = record { runs = λ w hp. h.runs w (p w.store hp) }

  -- A fact that the precondition holds of every state may be used to choose the proof.
  pub known-Ensures :
      {X : Type 0} {P : S → Type 0} {Q : A → S → Type 0} {E : S → Type 0} {m : M S A}
      → ((s : S) → P s → X)
      → (X → Ensures P m Q E)
      → Ensures P m Q E
  known-Ensures k h = record { runs = λ w hp. (h (k w.store hp)).runs w hp }

  -- A value of the first state may be fixed to choose the statement.
  pub at-Ensures :
      {X : Type 0} {P : S → Type 0} {Q : A → S → Type 0} {E : S → Type 0} {m : M S A} (f : S → X)
      → ((x : X) → Ensures (λ s. P s × (f s ≡ x)) m Q E)
      → Ensures P m Q E
  at-Ensures f h = record { runs = λ w hp. (h (f w.store)).runs w (hp, refl) }

  -- Either branch of a test, with what the test found.
  pub if-Ensures :
      {P : S → Type 0} {Q : A → S → Type 0} {E : S → Type 0} (b : Bool) {x y : M S A}
      → (b ≡ true → Ensures P x Q E)
      → (b ≡ false → Ensures P y Q E)
      → Ensures P (if b then x else y) Q E
  if-Ensures true h k = h refl
  if-Ensures false h k = k refl

  pub catch-Ensures :
      {P : S → Type 0} {Q : A → S → Type 0} {E : S → Type 0} {m : M S A} {h : Error → M S A}
      → Ensures P m Q E
      → ((e : Error) → Ensures E (h e) Q E)
      → Ensures P (catch m h) Q E
  unfolding catch
  catch-Ensures {Q} {E} {m} {h} p k = record { runs = λ w hp. go (m w) (p.runs w hp) }
    where
      go :
          (r : Outcome A × World S)
          → Post Q E r
          → Post Q E (elim r.0 [ done a ↦ (done a, r.1) | threw e ↦ h e r.1 | died ↦ (died, r.1) ])
      go (done a, w') x = x
      go (threw e, w') x = (k e).runs w' x
      go (died, w') x = x

module _ {S : Type 0} where
  pub skip-Ensures :
      {P : S → Type 0} {Q : Unit {0} → S → Type 0} {E : S → Type 0}
      → ((s : S) → P s → Q tt s)
      → Ensures P skip Q E
  unfolding skip
  skip-Ensures h = pure-Ensures tt h

  pub modify-Ensures :
      {P : S → Type 0} {Q : Unit {0} → S → Type 0} {E : S → Type 0} (fate : ℕ → Fate) (f : S → S)
      → ((s : S) → P s → Q tt (f s) × E s × E (f s))
      → Ensures P (modify fate f) Q E
  unfolding modify
  modify-Ensures fate f h = act-Ensures _ _ (λ n s p. h s p)

module _ {S A B : Type 0} where
  pub bind-Ensures :
      {P : S → Type 0} (Q : A → S → Type 0) {R : B → S → Type 0} {E : S → Type 0} {m : M S A}
      {f : A → M S B}
      → Ensures P m Q E
      → ((a : A) → Ensures (Q a) (f a) R E)
      → Ensures P (m >>= f) R E
  unfolding ◌>>=◌
  bind-Ensures Q {R} {E} {m} {f} h k = record { runs = λ w hp. go (m w) (h.runs w hp) }
    where
      go :
          (r : Outcome A × World S)
          → Post Q E r
          → Post R E (elim r.0 [ done a ↦ f a r.1 | threw e ↦ (threw e, r.1) | died ↦ (died, r.1) ])
      go (done a, w') x = (k a).runs w' x
      go (threw e, w') x = x
      go (died, w') x = x

-- One run that ends in one kind of state, however it ends.
pub run-Ensures :
    {S A : Type 0} {P E : S → Type 0} {m : M S A}
    → Ensures P m (λ _. E) E
    → (w : World S) → P w.store
    → E (m w).1.store
run-Ensures {S} {A} {E} {m} h w p = go (m w) (h.runs w p)
  where
    go : (r : Outcome A × World S) → Post (λ _. E) E r → E r.1.store
    go (done a, w') x = x
    go (threw e, w') x = x
    go (died, w') x = x
