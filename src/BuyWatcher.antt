-- ===== src/BuyWatcher.antt =====
-- services/bridge/src/workers/buy-watcher.ts: it expires the orders that were not paid in time, and
-- hands the orders whose payment address holds their price to the buy orchestrator.
pub mod Detection
mod Tests
use faircoin_bridge.Effects.{act, ask, catch, look, modify, pure, skip, ◌>>=◌, ◌>>◌}
use faircoin_bridge.Models.BuyOrder.{BuyOrder, BuyOrderStatus, PaymentCurrency}
use faircoin_bridge.Prelude.{
  Bool, Option, [], false, first, if◌then◌else◌, is_some, leb, ltb, none, some, suc, true, zero, ℕ,
  ◌&&◌, ◌∷◌,
}
use faircoin_bridge.Prelude.Collection.{Collection, claim_by_id, find_all, update_all}
use faircoin_bridge.Store.{Action, Config, Env, Store}

is_awaiting : BuyOrderStatus → Bool
is_awaiting BuyOrderStatus.awaiting_payment = true
is_awaiting _ = false

is_usdc_base : PaymentCurrency → Bool
is_usdc_base PaymentCurrency.usdc_base = true
is_usdc_base _ = false

max_orders_per_tick : ℕ
max_orders_per_tick = 50

-- The filter of `expireStaleOrders`.
stale : ℕ → BuyOrder → Bool
stale now o = is_awaiting o.status && ltb o.payment_expires_at now

set_expired : BuyOrder → BuyOrder
set_expired o = record o { status = BuyOrderStatus.expired }

-- The filter of `detectAwaitingOrders`.
detectable : ℕ → BuyOrder → Bool
detectable now o =
    is_awaiting o.status
    && is_usdc_base o.payment_currency
    && is_some o.payment_address
    && leb now o.payment_expires_at

set_detected : ℕ → BuyOrder → BuyOrder
set_detected balance o = record o {
  status = BuyOrderStatus.payment_detected;
  payment_detected_tx_hash = some balance;
}

claim_detected : ℕ → ℕ → Store → Option BuyOrder × Store
claim_detected id balance s =
    let (found, c) = claim_by_id id (λ o. is_awaiting o.status) (set_detected balance) s.orders in
    (found, record s { orders = c })

module _ (config : Config) (env : Env) where
  open env use {fate}

  -- `expireStaleOrders`
  expire_stale_orders : Action (Unit {0})
  expire_stale_orders =
      act fate
        (λ n s. (tt, record s { orders = update_all (stale (env.now n)) set_expired s.orders }))

  add_buy_job : ℕ → Action (Unit {0})
  add_buy_job id = modify fate (λ s. record s { buy_jobs = id ∷ s.buy_jobs })

  -- A balance that cannot be read is left for the next tick.
  balance_or_none : ℕ → Action (Option ℕ)
  balance_or_none address =
      catch (ask fate (λ n. env.usdc_balance_of n address) >>= (λ b. pure (some b)))
        (λ _. pure none)

  enqueue : ℕ → Option BuyOrder → Action (Unit {0})
  enqueue id none = skip
  enqueue id (some _) = add_buy_job id

  detect_paid : ℕ → BuyOrder → Option ℕ → Action (Unit {0})
  detect_paid id o none = skip
  detect_paid id o (some balance) =
      if ltb balance o.payment_amount
      then skip
      else act fate (λ _ s. claim_detected id balance s) >>= enqueue id

  detect_at : ℕ → BuyOrder → Option ℕ → Action (Unit {0})
  detect_at id o none = skip
  detect_at id o (some address) =
      if env.is_base_address address then balance_or_none address >>= detect_paid id o else skip

  -- The body of the loop of `detectAwaitingOrders`.
  pub detect_order : ℕ → BuyOrder → Action (Unit {0})
  detect_order id o = detect_at id o o.payment_address

  detect_all : Collection BuyOrder → Action (Unit {0})
  detect_all [] = skip
  detect_all ((id, o) ∷ c) = detect_order id o >> detect_all c

  -- `detectAwaitingOrders`
  detect_awaiting_orders : Action (Unit {0})
  detect_awaiting_orders =
      act fate (λ n s. (first max_orders_per_tick (find_all (detectable (env.now n)) s.orders), s))
      >>= detect_all

  watch_rounds : ℕ → Action (Unit {0})
  watch_rounds zero = skip
  watch_rounds (suc rounds) = do
    let next = watch_rounds rounds
    aborted ← look env.aborted
    if aborted
        then skip
        else catch (expire_stale_orders >> detect_awaiting_orders) (λ _. skip) >> next

  -- `startBuyWatcher`, for a number of rounds
  pub buy_watcher : ℕ → Action (Unit {0})
  buy_watcher rounds = if config.has_buy_key then watch_rounds rounds else skip
