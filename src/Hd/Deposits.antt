-- ===== src/Hd/Deposits.antt =====
-- No deposit index is given out twice, and its address is known (services/bridge/src/hd/derive.ts).
use mathlib.Core.List.{Memᴰ}
use faircoin_bridge.Effects.Hoare.{
  Ensures, act-Ensures, bind-Ensures, modify-Ensures, pure-Ensures, weaken-Ensures,
}
use faircoin_bridge.Effects.Keeps.{Keeps, if-Keeps, skip-Keeps, then-Ensures, throw-Keeps}
use faircoin_bridge.Hd.{DerivedKey, allocate_next_deposit_address, get_xpub_root}
use faircoin_bridge.Prelude.{List, ap, inl, inr, suc, sym, ℕ, ◌≡◌, ◌⊎◌}
use faircoin_bridge.Store.{Config, Env, Store}

module _ (config : Config) (env : Env) (I : Store → Type 0)
    (counted : (s : Store) (n : ℕ) → I s → I (record s { fair_deposit_next_index = n }))
    (cached : (s : Store) (l : List ℕ) → I s → I (record s { address_cache = l })) (k : ℕ) where
  abbrev pub At : ℕ → Store → Type 0
  At j s = I s × (s.fair_deposit_next_index ≡ j)

  -- The counter has moved by one at most.
  abbrev pub Moved : Store → Type 0
  Moved s = At k s ⊎ At (suc k) s

  -- The address of the index that the counter had is one that the service knows.
  abbrev pub IsKnown : Store → Type 0
  IsKnown s = Memᴰ (env.deposit_key_address k) s.address_cache

  abbrev pub IsKey : DerivedKey → Type 0
  IsKey key = (key.index ≡ k) × (key.address ≡ env.deposit_key_address k)

  root-Keeps : {P : Store → Type 0} → Keeps P (get_xpub_root config env)
  unfolding get_xpub_root
  root-Keeps = if-Keeps _ skip-Keeps (throw-Keeps _)

  -- However an allocation ends, the counter has moved by one at most; the key that it returns is that
  -- of the index before, and its address is then known.
  pub allocate_deposit-IsKey :
      Ensures
        (At k)
        (allocate_next_deposit_address config env)
        (λ key s. At (suc k) s × IsKnown s × IsKey key)
        Moved
  unfolding allocate_next_deposit_address
  allocate_deposit-IsKey =
      bind-Ensures (λ index s. At (suc k) s × (index ≡ k))
        (act-Ensures _ _ (λ n s p.
          let there : At (suc k)
              (record s { fair_deposit_next_index = suc s.fair_deposit_next_index }) =
            (counted s _ p.0, ap (λ (n : ℕ). suc n) p.1) in
          ((there, p.1), inl p, inr there)))
        (λ index.
          bind-Ensures
            (λ address s. At (suc k) s × (index ≡ k) × (address ≡ env.deposit_key_address k))
            (then-Ensures (λ s. At (suc k) s × (index ≡ k))
              (weaken-Ensures (λ s p. p) (λ _ s p. p) (λ s p. inr p.0) root-Keeps)
              (pure-Ensures _ (λ s p. (p.0, p.1, ap (λ i. env.deposit_key_address i) p.1))))
            (λ address.
              then-Ensures
                (λ s.
                  At (suc k) s × IsKnown s × (index ≡ k) × (address ≡ env.deposit_key_address k))
                (modify-Ensures _ _ (λ s p. (
                  ((cached s _ p.0.0, p.0.1), Memᴰ.head (sym p.2), p.1, p.2),
                  inr p.0,
                  inr (cached s _ p.0.0, p.0.1),
                )))
                (pure-Ensures _ (λ s p. (p.0, p.1, (p.2, p.3))))))
