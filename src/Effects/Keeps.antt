-- ===== src/Effects/Keeps.antt =====
-- `Keeps I m`: however the run of `m` ends, a state with `I` has become a state with `I`.
use faircoin_bridge.Effects.{
  Error, Fate, M, act, ask, catch, modify, pure, query, skip, throw, ◌>>=◌, ◌>>◌,
}
use faircoin_bridge.Effects.Hoare.{
  Ensures, act-Ensures, ask-Ensures, bind-Ensures, catch-Ensures, if-Ensures, modify-Ensures,
  pure-Ensures, query-Ensures, throw-Ensures,
}
use faircoin_bridge.Prelude.{Bool, if◌then◌else◌, ℕ}

module _ {S : Type 0} {A : Type 0} where
  abbrev pub Keeps : (S → Type 0) → M S A → Type 0
  Keeps I m = Ensures I m (λ _. I) I

  pub pure-Keeps : {I : S → Type 0} (a : A) → Keeps I (pure a)
  pure-Keeps a = pure-Ensures a (λ s p. p)

  pub throw-Keeps : {I : S → Type 0} (e : Error) → Keeps I (throw e)
  throw-Keeps e = throw-Ensures e (λ s p. p)

  pub query-Keeps : {I : S → Type 0} (fate : ℕ → Fate) (f : S → A) → Keeps I (query fate f)
  query-Keeps fate f = query-Ensures _ _ (λ s p. (p, p))

  pub ask-Keeps : {I : S → Type 0} (fate : ℕ → Fate) (f : ℕ → A) → Keeps I (ask fate f)
  ask-Keeps fate f = ask-Ensures _ _ (λ a s p. (p, p))

  pub act-Keeps :
      {I : S → Type 0} (fate : ℕ → Fate) (f : ℕ → S → A × S)
      → ((n : ℕ) (s : S) → I s → I (f n s).1)
      → Keeps I (act fate f)
  act-Keeps fate f h = act-Ensures _ _ (λ n s p. (h n s p, p, h n s p))

  pub if-Keeps :
      {I : S → Type 0} (b : Bool) {x y : M S A}
      → Keeps I x
      → Keeps I y
      → Keeps I (if b then x else y)
  if-Keeps b h k = if-Ensures b (λ _. h) (λ _. k)

  pub catch-Keeps :
      {I : S → Type 0} {m : M S A} {h : Error → M S A}
      → Keeps I m
      → ((e : Error) → Keeps I (h e))
      → Keeps I (catch m h)
  catch-Keeps p k = catch-Ensures p k

module _ {S A B : Type 0} where
  pub bind-Keeps :
      {I : S → Type 0} {m : M S A} {f : A → M S B}
      → Keeps I m
      → ((a : A) → Keeps I (f a))
      → Keeps I (m >>= f)
  bind-Keeps {I} h k = bind-Ensures (λ _. I) h k

  -- The sequence of two statements, when the first leaves `I`.
  pub then-Ensures :
      {P : S → Type 0} (I : S → Type 0) {R : B → S → Type 0} {E : S → Type 0} {m : M S A}
      {k : M S B}
      → Ensures P m (λ _. I) E
      → Ensures I k R E
      → Ensures P (m >> k) R E
  unfolding ◌>>◌
  then-Ensures I h k = bind-Ensures (λ _. I) h (λ _. k)

  pub then-Keeps :
      {I : S → Type 0} {m : M S A} {k : M S B} → Keeps I m → Keeps I k → Keeps I (m >> k)
  then-Keeps {I} h k = then-Ensures I h k

module _ {S : Type 0} where
  pub modify-Keeps :
      {I : S → Type 0} (fate : ℕ → Fate) (f : S → S)
      → ((s : S) → I s → I (f s))
      → Keeps I (modify fate f)
  modify-Keeps fate f h = modify-Ensures _ _ (λ s p. (h s p, p, h s p))

  pub skip-Keeps : {I : S → Type 0} → Keeps I skip
  unfolding skip
  skip-Keeps = pure-Keeps tt
