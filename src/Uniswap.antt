-- ===== src/Uniswap.antt =====
-- services/bridge/src/rpc/uniswap.ts: the pool that the service trades in, and its quotes.
pub mod Pool
use faircoin_bridge.Effects.{Error, ask, pure, throw, ◌>>=◌, ◌>>◌}
use faircoin_bridge.Prelude.{Option, if◌then◌else◌, none, some, ℕ, ◌==◌}
use faircoin_bridge.Store.{Action, Config, Env, PoolMeta, recall, remember}

-- The token of the pool that is this one.
token_of : (token0 token1 token : ℕ) → Option ℕ
token_of t0 t1 token = if t0 == token then some t0 else if t1 == token then some t1 else none

pool_of : (token0 token1 fee : ℕ) → Option ℕ → Option ℕ → Option PoolMeta
pool_of t0 t1 fee (some usdc) (some wfair) =
    some (record { token0 = t0; token1 = t1; fee = fee; wfair = wfair; usdc = usdc })
pool_of t0 t1 fee (some usdc) none = none
pool_of t0 t1 fee none wfair = none

module _ (config : Config) (env : Env) where
  open env use {fate}

  -- The pool's two tokens and the tokens of the configuration; an address equals itself whatever its
  -- letters' case, as `getAddress` makes it.
  match_pool : (token0 token1 fee : ℕ) → Option PoolMeta
  match_pool t0 t1 fee =
      pool_of t0 t1 fee (token_of t0 t1 config.usdc_base_address)
        (token_of t0 t1 config.wfair_contract_address)

  checked_pool : Option PoolMeta → Action PoolMeta
  checked_pool none = throw Error.transient
  checked_pool (some pool) = remember (λ s. record s { cached_pool_meta = some pool }) >> pure pool

  read_pool : Action PoolMeta
  read_pool = do
    t0 ← ask fate env.pool_token0
    t1 ← ask fate env.pool_token1
    fee ← ask fate env.pool_fee
    checked_pool (match_pool t0 t1 fee)

  cached_or_read : Option PoolMeta → Action PoolMeta
  cached_or_read none = read_pool
  cached_or_read (some pool) = pure pool

  -- `getPoolMeta`
  unfoldable pub get_pool_meta : Action PoolMeta
  unfolding cached_or_read read_pool checked_pool match_pool pool_of token_of recall remember
  get_pool_meta = recall (λ s. s.cached_pool_meta) >>= cached_or_read

  -- `quoteUsdcInForExactWfairOut`
  unfoldable pub quote_usdc_in_for_exact_wfair_out : ℕ → Action ℕ
  unfolding get_pool_meta
  quote_usdc_in_for_exact_wfair_out wfair_out = get_pool_meta >>= λ pool.
      ask fate (λ n. env.quote_exact_output n pool.usdc pool.wfair pool.fee wfair_out)

-- `resetPoolMetaCache`
reset_pool_meta_cache : Action (Unit {0})
reset_pool_meta_cache = remember (λ s. record s { cached_pool_meta = none })
