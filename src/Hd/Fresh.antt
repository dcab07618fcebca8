-- ===== src/Hd/Fresh.antt =====
-- No index is given out twice (services/bridge/src/hd/buy-payment.ts and hd/derive.ts).
use faircoin_bridge.Effects.Hoare.{Ensures, act-Ensures, bind-Ensures, pure-Ensures, weaken-Ensures}
use faircoin_bridge.Effects.Keeps.{Keeps, if-Keeps, skip-Keeps, then-Ensures, throw-Keeps}
use faircoin_bridge.Hd.{
  DerivedKey, allocate_next_buy_payment_address, derive_buy_payment_key, get_buy_payment_root,
  inc_buy_payment,
}
use faircoin_bridge.Prelude.{ap, inl, inr, suc, ℕ, ◌≡◌, ◌⊎◌}
use faircoin_bridge.Store.{Config, Env, Store}

module _ (config : Config) (env : Env) (I : Store → Type 0)
    (stable : (s : Store) (n : ℕ) → I s → I (record s { base_buy_payment_next_index = n }))
    (k : ℕ) where
  abbrev pub At : ℕ → Store → Type 0
  At j s = I s × (s.base_buy_payment_next_index ≡ j)

  -- The counter has moved by one at most.
  abbrev pub Moved : Store → Type 0
  Moved s = At k s ⊎ At (suc k) s

  -- The key of the index that the counter had.
  abbrev pub IsKey : DerivedKey → Type 0
  IsKey key = (key.index ≡ k) × (key.address ≡ env.payment_key_address k)

  root-Keeps : {P : Store → Type 0} → Keeps P (get_buy_payment_root config env)
  unfolding get_buy_payment_root
  root-Keeps = if-Keeps _ skip-Keeps (throw-Keeps _)

  -- However an allocation ends, the counter has moved by one at most, and the key that it returns is
  -- that of the index before.
  pub allocate-IsKey :
      Ensures
        (At k)
        (allocate_next_buy_payment_address config env)
        (λ key s. At (suc k) s × IsKey key)
        Moved
  unfolding allocate_next_buy_payment_address derive_buy_payment_key inc_buy_payment
  allocate-IsKey =
      then-Ensures (At k) (weaken-Ensures (λ s p. p) (λ _ s p. p) (λ s p. inl p) root-Keeps) (
        bind-Ensures (λ index s. At (suc k) s × (index ≡ k))
          (act-Ensures _ _ (λ n s p.
            let there : At (suc k)
                (record s { base_buy_payment_next_index = suc s.base_buy_payment_next_index }) =
              (stable s _ p.0, ap (λ (n : ℕ). suc n) p.1) in
            ((there, p.1), inl p, inr there)))
          (λ index.
            then-Ensures (λ s. At (suc k) s × (index ≡ k))
              (weaken-Ensures (λ s p. p) (λ _ s p. p) (λ s p. inr p.0) root-Keeps)
              (pure-Ensures _ (λ s p. (p.0, (p.1, ap (λ i. env.payment_key_address i) p.1))))))
