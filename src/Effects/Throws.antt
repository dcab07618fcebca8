-- ===== src/Effects/Throws.antt =====
-- Statements that tell the errors apart: `Throws P m Q E D` says that from a state with `P`, the run of
-- `m` ends in a state with `Q a` if it returns `a`, with `E e` if it throws `e`, and with `D` if the
-- process dies in the middle.
use faircoin_bridge.Effects.{
  Error, Fate, M, Outcome, World, act, catch, died, dies_after, dies_before, done, fine, pure,
  refused, threw, throw, tick, unheard, ◌>>=◌,
}
use faircoin_bridge.Effects.Hoare.{Ensures, Post}
use faircoin_bridge.Prelude.{inl, inr, refl, ℕ, ◌≡◌, ◌⊎◌}

module _ {S A : Type 0} where
  abbrev Ending :
      (A → S → Type 0) → (Error → S → Type 0) → (S → Type 0) → Outcome A × World S → Type 0
  Ending Q E D (done a, w) = Q a w.store
  Ending Q E D (threw e, w) = E e w.store
  Ending Q E D (died, w) = D w.store

pub record Throws {S A : Type 0} (P : S → Type 0) (m : M S A) (Q : A → S → Type 0)
    (E : Error → S → Type 0) (D : S → Type 0) : Type 0 where
  pub runs : (w : World S) → P w.store → Ending Q E D (m w)

-- The environment may answer with this error.
abbrev pub MayThrow : (ℕ → Fate) → Error → Type 0
MayThrow fate e = (n : ℕ) × ((fate n ≡ refused e) ⊎ (fate n ≡ unheard e))

module _ {S A : Type 0} {P : S → Type 0} {Q : A → S → Type 0} {E : Error → S → Type 0}
    {D : S → Type 0} where
  pub throw-Throws : (e : Error) → ((s : S) → P s → E e s) → Throws P (throw e) Q E D
  unfolding throw
  throw-Throws e h = record { runs = λ w p. h w.store p }

  pub pure-Throws : (a : A) → ((s : S) → P s → Q a s) → Throws P (pure a) Q E D
  unfolding pure
  pure-Throws a h = record { runs = λ w p. h w.store p }

  pub act-Throws :
      (fate : ℕ → Fate) (f : ℕ → S → A × S)
      → ((n : ℕ) (s : S)
          → P s
          → Q (f n s).0 (f n s).1
            × ((e : Error) → MayThrow fate e → E e s × E e (f n s).1)
            × D s
            × D (f n s).1)
      → Throws P (act fate f) Q E D
  unfolding act
  act-Throws fate f h = record { runs = λ w p. go w (h w.clock w.store p) (fate w.clock) refl }
    where
      go :
          (w : World S)
          → Q (f w.clock w.store).0 (f w.clock w.store).1
            × ((e : Error) → MayThrow fate e → E e w.store × E e (f w.clock w.store).1)
            × D w.store
            × D (f w.clock w.store).1
          → (k : Fate) → fate w.clock ≡ k
          → Ending Q E D (elim k [
            | fine ↦ (done (f w.clock w.store).0, tick w (f w.clock w.store).1)
            | refused e ↦ (threw e, tick w w.store)
            | unheard e ↦ (threw e, tick w (f w.clock w.store).1)
            | dies_before ↦ (died, tick w w.store)
            | dies_after ↦ (died, tick w (f w.clock w.store).1)
          ])
      go w x fine r = x.0
      go w x (refused e) r = (x.1 e (w.clock, inl r)).0
      go w x (unheard e) r = (x.1 e (w.clock, inr r)).1
      go w x dies_before r = x.2
      go w x dies_after r = x.3

  pub catch-Throws :
      {F : S → Type 0} {m : M S A} {h : Error → M S A}
      → Throws P m Q E D
      → ((e : Error) → Ensures (E e) (h e) Q F)
      → ((s : S) → D s → F s)
      → Ensures P (catch m h) Q F
  unfolding catch
  catch-Throws {F} {m} {h} p k d = record { runs = λ w hp. go (m w) (p.runs w hp) }
    where
      go :
          (r : Outcome A × World S)
          → Ending Q E D r
          → Post Q F (elim r.0 [ done a ↦ (done a, r.1) | threw e ↦ h e r.1 | died ↦ (died, r.1) ])
      go (done a, w') x = x
      go (threw e, w') x = (k e).runs w' x
      go (died, w') x = d w'.store x

pub bind-Throws :
    {S A B : Type 0} {P : S → Type 0} (Q : A → S → Type 0) {R : B → S → Type 0}
    {E : Error → S → Type 0} {D : S → Type 0} {m : M S A} {f : A → M S B}
    → Throws P m Q E D
    → ((a : A) → Throws (Q a) (f a) R E D)
    → Throws P (m >>= f) R E D
unfolding ◌>>=◌
bind-Throws {S} {A} {B} {P} Q {R} {E} {D} {m} {f} h k = record {
  runs = λ w hp. go (m w) (h.runs w hp);
}
  where
    go :
        (r : Outcome A × World S)
        → Ending Q E D r
        → Ending R E D
            (elim r.0 [ done a ↦ f a r.1 | threw e ↦ (threw e, r.1) | died ↦ (died, r.1) ])
    go (done a, w') x = (k a).runs w' x
    go (threw e, w') x = x
    go (died, w') x = x

pub Throws-Ensures :
    {S A : Type 0} {P : S → Type 0} {Q : A → S → Type 0} {E : Error → S → Type 0} {D F : S → Type 0}
    {m : M S A}
    → ((e : Error) (s : S) → E e s → F s)
    → ((s : S) → D s → F s)
    → Throws P m Q E D
    → Ensures P m Q F
Throws-Ensures {S} {A} {P} {Q} {E} {D} {F} {m} err end h = record {
  runs = λ w hp. go (m w) (h.runs w hp);
}
  where
    go : (r : Outcome A × World S) → Ending Q E D r → Post Q F r
    go (done a, w') x = x
    go (threw e, w') x = err e w'.store x
    go (died, w') x = end w'.store x

-- It threw nothing but what a call answered.
abbrev pub IsCaused : {A : Type 0} → (ℕ → Fate) → Outcome A → Type 0
IsCaused fate (done a) = Unit
IsCaused fate (threw e) = MayThrow fate e
IsCaused fate died = Unit

pub Throws-IsCaused :
    {S A : Type 0} {P I : S → Type 0} {m : M S A} (fate : ℕ → Fate)
    → Throws P m (λ _. I) (λ e s. I s × MayThrow fate e) I
    → (w : World S) → P w.store
    → I (m w).1.store × IsCaused fate (m w).0
Throws-IsCaused {S} {A} {P} {I} {m} fate h w p = go (m w) (h.runs w p)
  where
    go :
        (r : Outcome A × World S)
        → Ending (λ _. I) (λ e s. I s × MayThrow fate e) I r
        → I r.1.store × IsCaused fate r.0
    go (done a, w') x = (x, tt)
    go (threw e, w') x = x
    go (died, w') x = (x, tt)
