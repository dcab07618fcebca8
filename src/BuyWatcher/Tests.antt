-- ===== src/BuyWatcher/Tests.antt =====
-- The buy watcher at concrete inputs: an order of 900, whose address holds 900.
use faircoin_bridge.BuyWatcher.{
  add_buy_job, balance_or_none, buy_watcher, claim_detected, detect_all, detect_at,
  detect_awaiting_orders, detect_order, detect_paid, detectable, enqueue, expire_stale_orders,
  is_awaiting, is_usdc_base, max_orders_per_tick, set_detected, set_expired, stale, watch_rounds,
}
use faircoin_bridge.BuyWatcher.Detection.{Queued, detect_order_paid}
use faircoin_bridge.Effects.{
  World, act, ask, catch, look, modify, pure, query, skip, throw, ◌>>=◌, ◌>>◌,
}
use faircoin_bridge.Models.BuyOrder.{BuyOrder, BuyOrderStatus, PaymentCurrency}
use faircoin_bridge.Prelude.{[], false, none, refl, some, ◌∷◌, ◌≡◌}
use faircoin_bridge.Prelude.Collection.{claim_by_id, find_all, find_by_id, update_all, update_by_id}
use faircoin_bridge.Samples.{calm_env, config, empty_store}
use faircoin_bridge.Store.{Store}

abbrev order : BuyOrder
order = record {
  fair_amount_sats = 40;
  fair_destination_address = 6;
  payment_currency = PaymentCurrency.usdc_base;
  payment_address = some 501;
  payment_amount = 900;
  card_payment_url = none;
  payment_hd_index = some 1;
  payment_expires_at = 6;
  status = BuyOrderStatus.awaiting_payment;
  payment_detected_tx_hash = none;
  swap_tx_hash = none;
  swap_wfair_out = none;
  burn_tx_hash = none;
  release_fair_tx_id = none;
  fee_breakdown = record { uniswap_bps = 0; bridge_bps = 100; slippage_buffer_bps = 200 };
  user_identifier = none;
  client_ip = none;
  has_error = false;
}

world : World Store
world = record { clock = 0; store = record empty_store { orders = (3, order) ∷ [] } }

detect_order_paid_example :
    Queued config calm_env 3 order world.store.buy_jobs
      (detect_order config calm_env 3 order world).1.store
detect_order_paid_example = detect_order_paid config calm_env 3 order world

-- What one line of a test names to let the watcher run.
runs : Unit {0}
unfolding world buy_watcher watch_rounds expire_stale_orders stale set_expired
    detect_awaiting_orders detectable is_awaiting is_usdc_base max_orders_per_tick detect_all
    detect_order detect_at balance_or_none detect_paid claim_detected set_detected enqueue
    add_buy_job claim_by_id find_by_id update_by_id update_all find_all query ask modify act look
    skip pure throw catch ◌>>=◌ ◌>>◌
runs = tt

-- A paid order is handed on once, over three rounds.
paid_order_is_queued_once : (buy_watcher config calm_env 3 world).1.store.buy_jobs ≡ 3 ∷ []
unfolding runs
paid_order_is_queued_once = refl
