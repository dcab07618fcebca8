-- ===== src/Uniswap/Pool.antt =====
-- Which pool the service quotes in (services/bridge/src/rpc/uniswap.ts).
use faircoin_bridge.Effects.{M, ask, ◌>>=◌}
use faircoin_bridge.Effects.Hoare.{
  Ensures, act-Ensures, bind-Ensures, known-Ensures, modify-Ensures, pre-Ensures, pure-Ensures,
  query-Ensures, throw-Ensures,
}
use faircoin_bridge.Effects.Keeps.{ask-Keeps, then-Ensures}
use faircoin_bridge.Prelude.{
  Bool-cases, Option, arith, inl, inr, none, refl, some, ℕ, ◌==◌, ◌≡◌, ◌⊎◌,
}
use faircoin_bridge.Store.{Config, Env, PoolMeta, Store, recall, remember}
use faircoin_bridge.Uniswap.{
  cached_or_read, checked_pool, get_pool_meta, match_pool, pool_of,
  quote_usdc_in_for_exact_wfair_out, read_pool, token_of,
}

token_of_cases :
    (t0 t1 token found : ℕ)
    → token_of t0 t1 token ≡ some found
    → (found ≡ token) × ((t0 ≡ found) ⊎ (t1 ≡ found))
unfolding token_of
token_of_cases t0 t1 token found h = elim (Bool-cases (t0 == token)) [
  | inl t ↦ (ground arith, inl (ground arith))
  | inr f ↦ elim (Bool-cases (t1 == token)) [
    | inl t ↦ (ground arith, inr (ground arith))
    | inr f' ↦ absurd (ground arith)
  ]
]

-- The quoter's answer to how much of the configuration's USDC gives this much of its WFAIR.
abbrev pub IsQuote : Config → Env → ℕ → ℕ → Type 0
IsQuote config env wfair_out usdc =
    (n fee : ℕ) × (usdc
      ≡ env.quote_exact_output n config.usdc_base_address config.wfair_contract_address fee
          wfair_out)

module _ (config : Config) where
  -- The pool trades the two tokens of the configuration.
  abbrev pub IsPool : PoolMeta → Type 0
  IsPool pool =
      (pool.usdc ≡ config.usdc_base_address)
      × (pool.wfair ≡ config.wfair_contract_address)
      × ((pool.token0 ≡ pool.usdc) ⊎ (pool.token1 ≡ pool.usdc))
      × ((pool.token0 ≡ pool.wfair) ⊎ (pool.token1 ≡ pool.wfair))

  abbrev pub HoldsPool : Option PoolMeta → Type 0
  HoldsPool none = Unit
  HoldsPool (some pool) = IsPool pool

  -- The pool that the process remembers is such a pool.
  abbrev pub PoolIsChecked : Store → Type 0
  PoolIsChecked s = HoldsPool s.cached_pool_meta

  pool_of-HoldsPool :
      (t0 t1 fee : ℕ) (usdc wfair : Option ℕ)
      → token_of t0 t1 config.usdc_base_address ≡ usdc
      → token_of t0 t1 config.wfair_contract_address ≡ wfair
      → HoldsPool (pool_of t0 t1 fee usdc wfair)
  unfolding pool_of
  pool_of-HoldsPool t0 t1 fee none wfair u w = tt
  pool_of-HoldsPool t0 t1 fee (some usdc) none u w = tt
  pool_of-HoldsPool t0 t1 fee (some usdc) (some wfair) u w =
      let (is_usdc, in_pool) = token_of_cases t0 t1 config.usdc_base_address usdc u in
      let (is_wfair, in_pool') = token_of_cases t0 t1 config.wfair_contract_address wfair w in
      (is_usdc, is_wfair, in_pool, in_pool')

  module _ (env : Env) (P : Store → Type 0)
      (recorded : (s : Store) (pool : PoolMeta)
        → P s
        → P (record s { cached_pool_meta = some pool })) where
    abbrev Checked : Store → Type 0
    Checked s = P s × PoolIsChecked s

    checked_pool-IsPool :
        (pool : Option PoolMeta)
        → HoldsPool pool
        → Ensures Checked (checked_pool config env pool) (λ r s. Checked s × IsPool r) Checked
    unfolding checked_pool remember
    checked_pool-IsPool none h = throw-Ensures _ (λ s p. p)
    checked_pool-IsPool (some pool) h =
        then-Ensures Checked
          (modify-Ensures _ _ (λ s p. ((recorded s pool p.0, h), p, (recorded s pool p.0, h))))
          (pure-Ensures pool (λ s p. (p, h)))

    cached_or_read-IsPool :
        (pool : Option PoolMeta)
        → HoldsPool pool
        → Ensures Checked (cached_or_read config env pool) (λ r s. Checked s × IsPool r) Checked
    unfolding cached_or_read read_pool match_pool
    cached_or_read-IsPool (some pool) h = pure-Ensures pool (λ s p. (p, h))
    cached_or_read-IsPool none h = bind-Keeps' env.pool_token0 (λ t0.
        bind-Keeps' env.pool_token1 (λ t1.
          bind-Keeps' env.pool_fee
            (λ fee. checked_pool-IsPool _ (pool_of-HoldsPool t0 t1 fee _ _ refl refl))))
      where
        bind-Keeps' :
            (answer : ℕ → ℕ) {k : ℕ → M Store PoolMeta}
            → ((a : ℕ) → Ensures Checked (k a) (λ r s. Checked s × IsPool r) Checked)
            → Ensures Checked (ask env.fate answer >>= k) (λ r s. Checked s × IsPool r) Checked
        bind-Keeps' answer h = bind-Ensures (λ _. Checked) (ask-Keeps _ _) h

    pub get_pool_meta-IsPool :
        Ensures Checked (get_pool_meta config env) (λ r s. Checked s × IsPool r) Checked
    unfolding get_pool_meta recall
    get_pool_meta-IsPool =
        bind-Ensures (λ r s. Checked s × HoldsPool r) (query-Ensures _ _ (λ s p. ((p, p.1), p)))
          (λ r.
            known-Ensures (λ s p. p.1) (λ h. pre-Ensures (λ s p. p.0) (cached_or_read-IsPool r h)))

    pub exact_out-IsQuote :
        (wfair_out : ℕ)
        → Ensures Checked
            (quote_usdc_in_for_exact_wfair_out config env wfair_out)
            (λ usdc s. Checked s × IsQuote config env wfair_out usdc)
            Checked
    unfolding quote_usdc_in_for_exact_wfair_out ask
    exact_out-IsQuote wfair_out =
        bind-Ensures (λ r s. Checked s × IsPool r) get_pool_meta-IsPool
          (λ pool. act-Ensures _ _ (λ n s p. ((p.0, (n, pool.fee, cc (p.1.0, p.1.1))), p.0, p.0)))
