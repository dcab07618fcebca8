-- ===== src/Effects.antt =====
-- An asynchronous handler of the service, as a function of the state that it shares with the rest
-- of the program. Each `await` on MongoDB, Redis, faircoind or a Base node is one effect, and the
-- environment decides how it ends: it may fail before or after it took effect, and the process may
-- be killed before or after it took effect.
pub mod Hoare
pub mod Keeps
pub mod Returns
pub mod Throws
pub mod Retries
use faircoin_bridge.Prelude.{suc, ℕ}

-- What a thrown error is, as far as the handlers look at it.
pub data Error : Type 0 where
  -- an RPC, database or other error that a later attempt may not meet
  transient : Error
  -- faircoind's "RPC -5": no such transaction
  no_such_tx : Error
  -- MongoDB's E11000
  duplicate_key : Error
  -- a transaction was mined and reverted
  reverted : Error
  -- `NonRetryableError`
  non_retryable : Error

-- How one awaited call ends.
pub data Fate : Type 0 where
  fine : Fate
  -- it throws and has not taken effect
  refused : Error → Fate
  -- it throws and has taken effect, such as a timeout after the request was served
  unheard : Error → Fate
  dies_before dies_after : Fate

pub record World (S : Type 0) : Type 0 where
  pub clock : ℕ
  pub store : S

pub data Outcome (A : Type 0) : Type 0 where
  done : A → Outcome A
  threw : Error → Outcome A
  died : Outcome A

abbrev pub M : Type 0 → Type 0 → Type 0
M S A = World S → Outcome A × World S

module _ {S : Type 0} where
  infixl 5 ◌>>=◌ ◌>>◌
  unfoldable pub ◌>>=◌ : {A B : Type 0} → M S A → (A → M S B) → M S B
  ◌>>=◌ m f w =
      let (r, w') = m w in elim r [ done a ↦ f a w' | threw e ↦ (threw e, w') | died ↦ (died, w') ]

  unfoldable pub ◌>>◌ : {A B : Type 0} → M S A → M S B → M S B
  unfolding ◌>>=◌
  m >> k = m >>= λ _. k

  unfoldable pub pure : {A : Type 0} → A → M S A
  pure a w = (done a, w)

  unfoldable pub throw : {A : Type 0} → Error → M S A
  throw e w = (threw e, w)

  -- `try { m } catch (err) { h(err) }`; a killed process runs no handler.
  unfoldable pub catch : {A : Type 0} → M S A → (Error → M S A) → M S A
  catch m h w =
      let (r, w') = m w in elim r [ done a ↦ (done a, w') | threw e ↦ h e w' | died ↦ (died, w') ]

  -- The state after an effect, at the next tick of the clock.
  abbrev pub tick : World S → S → World S
  tick w s = record { clock = suc w.clock; store = s }

  -- One awaited call: what it returns and does, given the time and the state at that moment.
  unfoldable pub act : {A : Type 0} → (ℕ → Fate) → (ℕ → S → A × S) → M S A
  act fate f w =
      let (a, s) = f w.clock w.store in
      elim (fate w.clock) [
        | fine ↦ (done a, tick w s)
        | refused e ↦ (threw e, tick w w.store)
        | unheard e ↦ (threw e, tick w s)
        | dies_before ↦ (died, tick w w.store)
        | dies_after ↦ (died, tick w s)
      ]

  -- A call that only reads the state.
  unfoldable pub query : {A : Type 0} → (ℕ → Fate) → (S → A) → M S A
  unfolding act
  query fate f = act fate (λ _ s. (f s, s))

  -- A call that asks the outside world.
  unfoldable pub ask : {A : Type 0} → (ℕ → Fate) → (ℕ → A) → M S A
  unfolding act
  ask fate f = act fate (λ n s. (f n, s))

  -- A call that only writes.
  unfoldable pub modify : (ℕ → Fate) → (S → S) → M S (Unit {0})
  unfolding act
  modify fate f = act fate (λ _ s. (tt, f s))

  unfoldable pub skip : M S (Unit {0})
  unfolding pure
  skip = pure tt

  -- A value that is read without waiting, such as an abort signal's.
  unfoldable pub look : {A : Type 0} → (ℕ → A) → M S A
  look f w = (done (f w.clock), w)
