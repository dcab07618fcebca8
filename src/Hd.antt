-- ===== src/Hd.antt =====
-- The indexes of derived keys (services/bridge/src/hd/buy-payment.ts and hd/derive.ts). The keys
-- and addresses of an index are derived by libraries and are answers of the environment.
pub mod Fresh
pub mod Deposits
mod Tests
use faircoin_bridge.Effects.{Error, act, pure, skip, throw, ◌>>=◌, ◌>>◌}
use faircoin_bridge.Prelude.{Bool, if◌then◌else◌, suc, ℕ, ◌&&◌, ◌∷◌}
use faircoin_bridge.Store.{Action, Config, Env, Store, remember}

-- `DerivedBuyPaymentKey`, without the private key
pub record DerivedKey : Type 0 where
  pub index : ℕ
  pub address : ℕ

-- `$inc` of `nextIndex`, with the value before it
inc_buy_payment : Store → ℕ × Store
inc_buy_payment s = (
  s.base_buy_payment_next_index,
  record s { base_buy_payment_next_index = suc s.base_buy_payment_next_index },
)

inc_fair_deposit : Store → ℕ × Store
inc_fair_deposit s = (
  s.fair_deposit_next_index,
  record s { fair_deposit_next_index = suc s.fair_deposit_next_index },
)

-- `isBuyPaymentHdConfigured`
pub is_buy_payment_hd_configured : Config → Bool
is_buy_payment_hd_configured config = config.has_buy_key

module _ (config : Config) (env : Env) where
  open env use {fate}

  -- `getBuyPaymentRoot`; a root that was decoded once is decoded again here.
  get_buy_payment_root : Action (Unit {0})
  get_buy_payment_root =
      if config.has_buy_key && env.is_buy_key then skip else throw Error.transient

  -- `deriveBuyPaymentKey`, for an index that is a natural number
  derive_buy_payment_key : ℕ → Action DerivedKey
  derive_buy_payment_key index =
      get_buy_payment_root
      >> pure (record { index = index; address = env.payment_key_address index })

  -- `allocateNextBuyPaymentAddress`
  unfoldable pub allocate_next_buy_payment_address : Action DerivedKey
  unfolding get_buy_payment_root inc_buy_payment derive_buy_payment_key
  allocate_next_buy_payment_address =
      get_buy_payment_root >> (act fate (λ _ s. inc_buy_payment s) >>= derive_buy_payment_key)

  -- `getXpubRoot`
  get_xpub_root : Action (Unit {0})
  get_xpub_root =
      if config.has_bridge_xpub && env.is_bridge_xpub then skip else throw Error.transient

  -- `deriveDepositAddress`
  derive_deposit_address : ℕ → Action ℕ
  derive_deposit_address index = get_xpub_root >> pure (env.deposit_key_address index)

  -- `getNextIndex`
  get_next_index : Action ℕ
  get_next_index = act fate (λ _ s. inc_fair_deposit s)

  add_to_cache : ℕ → ℕ → Action DerivedKey
  add_to_cache index address =
      remember (λ s. record s { address_cache = address ∷ s.address_cache })
      >> pure (record { index = index; address = address })

  -- `allocateNextDepositAddress`
  unfoldable pub allocate_next_deposit_address : Action DerivedKey
  unfolding get_next_index inc_fair_deposit derive_deposit_address get_xpub_root add_to_cache
      remember
  allocate_next_deposit_address = do
    index ← get_next_index
    address ← derive_deposit_address index
    add_to_cache index address
