-- ===== src/Buy.antt =====
-- services/bridge/src/signer/buy.ts: the buy orchestrator, which swaps the USDC that was paid for an
-- order and burns the WFAIR to the buyer's FairCoin address, and its job in
-- services/bridge/src/workers/orchestrator.ts.
pub mod Rest
pub mod Recorded
pub mod Attempts
mod Tests
use faircoin_bridge.Amounts.{apply_fee}
use faircoin_bridge.Effects.{
  Error, World, act, ask, catch, modify, pure, query, skip, throw, ◌>>=◌, ◌>>◌,
}
use faircoin_bridge.Models.BuyOrder.{BuyOrder, BuyOrderStatus}
use faircoin_bridge.Prelude.{
  Bool, Option, false, if◌then◌else◌, is_none, is_some, leb, none, some, true, ℕ, ◌&&◌, ◌-◌, ◌==◌,
  ◌∷◌,
}
use faircoin_bridge.Prelude.Collection.{claim_by_id, find_by_id, update_by_id}
use faircoin_bridge.Store.{Action, Alert, Audit, Config, Env, Receipt, Store, alert}

-- `parseEther("0.0003")`
payment_gas_topup_wei : ℕ
payment_gas_topup_wei = 300_000_000_000_000

slippage_buffer_from_quote_bps : ℕ
slippage_buffer_from_quote_bps = 100

pub set_order : ℕ → (BuyOrder → BuyOrder) → Store → Store
set_order id f s = record s { orders = update_by_id id f s.orders }

set_status : BuyOrderStatus → BuyOrder → BuyOrder
set_status status o = record o { status = status }

set_failed : BuyOrder → BuyOrder
set_failed o = record o { status = BuyOrderStatus.failed; has_error = true }

set_swap_hash : ℕ → BuyOrder → BuyOrder
set_swap_hash h o = record o { swap_tx_hash = some h }

set_swap_out : ℕ → BuyOrder → BuyOrder
set_swap_out wei o = record o { swap_wfair_out = some wei }

set_burn_hash : ℕ → BuyOrder → BuyOrder
set_burn_hash h o = record o { burn_tx_hash = some h }

-- The filters of `claimSwapping` and `claimBurning`, without the key.
swappable_status : BuyOrderStatus → Bool
swappable_status BuyOrderStatus.payment_detected = true
swappable_status BuyOrderStatus.swapping = true
swappable_status _ = false

swappable : BuyOrder → Bool
swappable o = swappable_status o.status && is_none o.swap_tx_hash

burnable_status : BuyOrderStatus → Bool
burnable_status BuyOrderStatus.swapping = true
burnable_status BuyOrderStatus.burning = true
burnable_status _ = false

burnable : BuyOrder → Bool
burnable o = burnable_status o.status && is_none o.burn_tx_hash && is_some o.swap_tx_hash

claim_effect : ℕ → (BuyOrder → Bool) → BuyOrderStatus → Store → Option BuyOrder × Store
claim_effect id filter status s =
    let (found, c) = claim_by_id id filter (set_status status) s.orders in
    (found, record s { orders = c })

or_else : Option BuyOrder → BuyOrder → BuyOrder
or_else none o = o
or_else (some fresh) o = fresh

-- `BuyContext`: the order and the address of its payment key
pub record BuyContext : Type 0 where
  pub order : BuyOrder
  pub payment_address : ℕ

module _ (config : Config) (env : Env) where
  open env use {fate}

  load_order : ℕ → Action (Option BuyOrder)
  load_order id = query fate (λ s. find_by_id id s.orders)

  context_of : BuyOrder → ℕ → Option ℕ → Action (Option BuyContext)
  context_of o key none = pure (some (record { order = o; payment_address = key }))
  context_of o key (some address) =
      if address == key
      then pure (some (record { order = o; payment_address = key }))
      else throw Error.non_retryable

  pub with_index : BuyOrder → Option ℕ → Action (Option BuyContext)
  with_index o none = throw Error.non_retryable
  with_index o (some index) = context_of o (env.payment_key_address index) o.payment_address

  with_order : Option BuyOrder → Action (Option BuyContext)
  with_order none = pure none
  with_order (some o) = with_index o o.payment_hd_index

  -- `loadContext`
  load_context : ℕ → Action (Option BuyContext)
  load_context id = load_order id >>= with_order

  pub wait_receipt : ℕ → Action Receipt
  wait_receipt hash = ask fate (λ n. env.receipt n hash)

  pub update_order : ℕ → (BuyOrder → BuyOrder) → Action (Unit {0})
  update_order id f = modify fate (set_order id f)

  require_mined : Receipt → Action (Unit {0})
  require_mined receipt = if receipt.success then skip else throw Error.reverted

  top_up : ℕ → Action (Unit {0})
  top_up needed = do
    if config.has_bridge_key then skip else throw Error.non_retryable
    hash ← act fate (λ n s. (env.hash n, record s { top_ups = needed ∷ s.top_ups }))
    wait_receipt hash >>= require_mined

  -- `ensurePaymentGasBudget`
  pub ensure_payment_gas_budget : ℕ → Action (Unit {0})
  ensure_payment_gas_budget address = do
    balance ← ask fate (λ n. env.eth_balance_of n address)
    if leb payment_gas_topup_wei balance then skip else top_up (payment_gas_topup_wei - balance)

  -- `ensureUsdcAllowance`
  pub ensure_usdc_allowance : (address amount : ℕ) → Action (Unit {0})
  ensure_usdc_allowance address amount = do
    allowance ← ask fate (λ n. env.usdc_allowance_of n address)
    if leb amount allowance
        then skip
        else act fate (λ n s. (env.hash n, record s { approvals = amount ∷ s.approvals }))
          >>= wait_receipt
          >>= require_mined

  -- `claimSwapping`
  claim_swapping : ℕ → Action (Option BuyOrder)
  claim_swapping id = act fate (λ _ s. claim_effect id swappable BuyOrderStatus.swapping s)

  -- `claimBurning`
  claim_burning : ℕ → Action (Option BuyOrder)
  claim_burning id = act fate (λ _ s. claim_effect id burnable BuyOrderStatus.burning s)

  -- A transaction of the order that reverted ends it.
  pub require_success : ℕ → Receipt → Action (Unit {0})
  require_success id receipt =
      if receipt.success then skip else update_order id set_failed >> throw Error.reverted

  require_usdc : ℕ → Action (Unit {0})
  require_usdc usdc = if leb usdc 0 then throw Error.non_retryable else skip

  send_swap : (usdc expected : ℕ) → Action ℕ
  send_swap usdc expected = act fate (λ n s. (
    env.hash n,
    record s {
      swaps =
          record {
            amount_in = usdc;
            amount_out_minimum = apply_fee expected slippage_buffer_from_quote_bps;
          }
          ∷ s.swaps;
    },
  ))

  -- `executeSwap`
  execute_swap : (id address : ℕ) → Action ℕ
  execute_swap id address = do
    usdc ← ask fate (λ n. env.usdc_balance_of n address)
    require_usdc usdc
    ensure_payment_gas_budget address
    ensure_usdc_allowance address usdc
    expected ← ask fate (λ n. env.wfair_quote n usdc)
    hash ← send_swap usdc expected
    update_order id (set_swap_hash hash)
    receipt ← wait_receipt hash
    require_success id receipt
    wei ← ask fate (λ n. env.wfair_balance_of n address)
    update_order id (set_swap_out wei)
    pure wei

  -- `reconcileSwap`
  pub reconcile_swap : (id address hash : ℕ) → Action ℕ
  reconcile_swap id address hash = do
    receipt ← wait_receipt hash
    require_success id receipt
    ask fate (λ n. env.wfair_balance_of n address)

  send_burn : (wei destination : ℕ) → Action ℕ
  send_burn wei destination = act fate (λ n s. (
    env.hash n,
    record s { burns = record { amount = wei; faircoin_address = destination } ∷ s.burns },
  ))

  settle_burn : (id hash : ℕ) → Action (Unit {0})
  settle_burn id hash = do
    receipt ← wait_receipt hash
    require_success id receipt
    update_order id (set_status BuyOrderStatus.delivering)

  -- `executeBurn`
  execute_burn : (id wei destination : ℕ) → Action (Unit {0})
  execute_burn id wei destination = do
    hash ← send_burn wei destination
    update_order id (set_burn_hash hash)
    settle_burn id hash

  -- `reconcileBurn`
  reconcile_burn : (id hash : ℕ) → Action (Unit {0})
  reconcile_burn id hash = settle_burn id hash

  write_audit : ℕ → Action (Unit {0})
  write_audit id =
      catch (modify fate (λ s. record s { audit_log = Audit.buy_entry id ∷ s.audit_log }))
        (λ _. alert env (Alert.buy_audit_failed id))

  burn_if_burning : (id wei : ℕ) → BuyOrder → BuyOrderStatus → Action (Unit {0})
  burn_if_burning id wei o BuyOrderStatus.burning =
      execute_burn id wei o.fair_destination_address >> write_audit id
  burn_if_burning id wei o _ = skip

  burn_by_hash : (id wei : ℕ) → BuyOrder → Option ℕ → Action (Unit {0})
  burn_by_hash id wei o (some hash) = reconcile_burn id hash >> write_audit id
  burn_by_hash id wei o none = burn_if_burning id wei o o.status

  burn_claimed : (id wei : ℕ) → Option BuyOrder → Action (Unit {0})
  burn_claimed id wei none = skip
  burn_claimed id wei (some o) = burn_by_hash id wei o o.burn_tx_hash

  or_reload : ℕ → Option BuyOrder → Action (Option BuyOrder)
  or_reload id none = load_order id
  or_reload id (some o) = pure (some o)

  claim_burning_or_reload : ℕ → BuyOrder → Action (Option BuyOrder)
  claim_burning_or_reload id o =
      if is_none o.burn_tx_hash then claim_burning id >>= or_reload id else pure (some o)

  -- The second half of `processBuy`; `none` is a swap that was given up.
  pub burn_after : ℕ → BuyOrder → Option ℕ → Action (Unit {0})
  burn_after id o none = skip
  burn_after id o (some wei) = do
    fresh ← load_order id
    claimed ← claim_burning_or_reload id (or_else fresh o)
    burn_claimed id wei claimed

  swap_if_swapping : (id address : ℕ) → BuyOrderStatus → Action (Option ℕ)
  swap_if_swapping id address BuyOrderStatus.swapping = do
    wei ← execute_swap id address
    pure (some wei)
  swap_if_swapping id address _ = pure none

  swap_by_hash : (id address : ℕ) → BuyOrder → Option ℕ → Action (Option ℕ)
  swap_by_hash id address o (some hash) = do wei ← reconcile_swap id address hash; pure (some wei)
  swap_by_hash id address o none = swap_if_swapping id address o.status

  swap_claimed : (id address : ℕ) → Option BuyOrder → Action (Unit {0})
  swap_claimed id address none = skip
  swap_claimed id address (some o) = swap_by_hash id address o o.swap_tx_hash >>= burn_after id o

  pub claim_swapping_or_reload : ℕ → BuyOrder → Action (Option BuyOrder)
  claim_swapping_or_reload id o =
      if is_none o.swap_tx_hash then claim_swapping id >>= or_reload id else pure (some o)

  buy_open : ℕ → BuyContext → Action (Unit {0})
  buy_open id ctx = claim_swapping_or_reload id ctx.order >>= swap_claimed id ctx.payment_address

  buy_by_status : BuyOrderStatus → ℕ → BuyContext → Action (Unit {0})
  buy_by_status BuyOrderStatus.delivered id ctx = skip
  buy_by_status BuyOrderStatus.delivering id ctx = skip
  buy_by_status BuyOrderStatus.failed id ctx = throw Error.non_retryable
  buy_by_status BuyOrderStatus.expired id ctx = throw Error.non_retryable
  buy_by_status _ id ctx = buy_open id ctx

  buy_loaded : ℕ → Option BuyContext → Action (Unit {0})
  buy_loaded id none = skip
  buy_loaded id (some ctx) = buy_by_status ctx.order.status id ctx

  -- `processBuy`
  pub process_buy : ℕ → Action (Unit {0})
  process_buy id = load_context id >>= buy_loaded id

  report_buy : ℕ → Error → Action (Unit {0})
  report_buy id Error.non_retryable = do
    alert env (Alert.buy_job_failed id)
    throw Error.non_retryable
  report_buy id e = throw e

  -- `buyProcessor`
  pub buy_processor : ℕ → Action (Unit {0})
  buy_processor id = catch (process_buy id) (report_buy id)

abbrev pub swap_hash_of : Option BuyOrder → Option ℕ
swap_hash_of none = none
swap_hash_of (some o) = o.swap_tx_hash

-- The swap's hash on file for an order.
pub swap_on_file : ℕ → Store → Option ℕ
swap_on_file id s = swap_hash_of (find_by_id id s.orders)

module _ (config : Config) (env : Env) (id : ℕ) where
  -- One run of the job, however it ends.
  pub run : World Store → World Store
  run w = (process_buy config env id w).1
