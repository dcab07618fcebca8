-- ===== src/Buy/Tests.antt =====
-- The buy orchestrator at concrete inputs.
use faircoin_bridge.Amounts.{apply_fee}
use faircoin_bridge.Buy.{
  burn_after, burn_by_hash, burn_claimed, burn_if_burning, burnable, burnable_status, buy_by_status,
  buy_loaded, buy_open, claim_burning, claim_burning_or_reload, claim_effect, claim_swapping,
  claim_swapping_or_reload, context_of, ensure_payment_gas_budget, ensure_usdc_allowance,
  execute_burn, execute_swap, load_context, load_order, or_else, or_reload, payment_gas_topup_wei,
  process_buy, reconcile_burn, reconcile_swap, require_mined, require_success, require_usdc, run,
  send_burn, send_swap, set_burn_hash, set_failed, set_order, set_status, set_swap_hash,
  set_swap_out, settle_burn, slippage_buffer_from_quote_bps, swap_by_hash, swap_claimed,
  swap_if_swapping, swap_on_file, swappable, swappable_status, top_up, update_order, wait_receipt,
  with_index, with_order, write_audit,
}
use faircoin_bridge.Buy.Attempts.{attempts-swaps}
use faircoin_bridge.Buy.Recorded.{OnFile, process_buy_once_recorded}
use faircoin_bridge.Effects.{
  Fate, World, act, ask, catch, modify, pure, query, skip, throw, ◌>>=◌, ◌>>◌,
}
use faircoin_bridge.Effects.Retries.{attempts, unrecorded}
use faircoin_bridge.Models.BuyOrder.{BuyOrder, BuyOrderStatus, PaymentCurrency}
use faircoin_bridge.Prelude.{
  [], false, if◌then◌else◌, length, none, refl, some, ◌+◌, ◌==◌, ◌∷◌, ◌≡◌, ◌≤◌,
}
use faircoin_bridge.Prelude.Collection.{claim_by_id, find_by_id, update_by_id}
use faircoin_bridge.Samples.{calm_env, config, empty_store}
use faircoin_bridge.Store.{Env, Store, alert, quiet}

abbrev order : BuyOrder
order = record {
  fair_amount_sats = 40;
  fair_destination_address = 6;
  payment_currency = PaymentCurrency.usdc_base;
  payment_address = some 501;
  payment_amount = 900;
  card_payment_url = none;
  payment_hd_index = some 1;
  payment_expires_at = 1_000;
  status = BuyOrderStatus.payment_detected;
  payment_detected_tx_hash = some 900;
  swap_tx_hash = none;
  swap_wfair_out = none;
  burn_tx_hash = none;
  release_fair_tx_id = none;
  fee_breakdown = record { uniswap_bps = 0; bridge_bps = 100; slippage_buffer_bps = 200 };
  user_identifier = none;
  client_ip = none;
  has_error = false;
}

abbrev world_of : BuyOrder → World Store
world_of o = record { clock = 0; store = record empty_store { orders = (3, o) ∷ [] } }

abbrev world : World Store
world = world_of order

-- The process is killed in the tenth call.
abbrev killed_env : Env
killed_env = record calm_env { fate = λ n. if n == 9 then Fate.dies_after else Fate.fine }

abbrev recorded_world : World Store
recorded_world =
    world_of (record order { status = BuyOrderStatus.swapping; swap_tx_hash = some 44 })

recorded_world-OnFile : OnFile 3 44 [] recorded_world.store
unfolding find_by_id
recorded_world-OnFile = record { recorded = refl; unsent = refl }

process_buy_once_recorded_example :
    OnFile 3 44 [] (process_buy config killed_env 3 recorded_world).1.store
process_buy_once_recorded_example =
    process_buy_once_recorded config killed_env 3 44 [] recorded_world recorded_world-OnFile

attempts-swaps_example :
    length (attempts (run config killed_env 3) 2 world).store.swaps
    ≤ length world.store.swaps
      + 1
      + unrecorded (run config killed_env 3) (λ s. s.swaps) (swap_on_file 3) 2 world
attempts-swaps_example = attempts-swaps config killed_env 3 2 world

-- What one line of a test names to let the orchestrator run.
runs : Unit {0}
unfolding process_buy load_context load_order with_order with_index context_of buy_loaded
    buy_by_status buy_open claim_swapping_or_reload claim_swapping claim_effect swappable
    swappable_status or_reload swap_claimed swap_by_hash swap_if_swapping execute_swap require_usdc
    ensure_payment_gas_budget top_up payment_gas_topup_wei ensure_usdc_allowance wait_receipt
    require_mined send_swap slippage_buffer_from_quote_bps apply_fee update_order set_order
    set_swap_hash set_swap_out set_status set_failed set_burn_hash require_success reconcile_swap
    burn_after or_else claim_burning_or_reload claim_burning burnable burnable_status burn_claimed
    burn_by_hash burn_if_burning execute_burn reconcile_burn send_burn settle_burn write_audit
    claim_by_id find_by_id update_by_id alert quiet query ask modify act skip pure throw catch ◌>>=◌
    ◌>>◌ attempts run
runs = tt

-- Without failures, the order's USDC is swapped once and its WFAIR burned once, over three runs.
order_is_burned :
    ((attempts (run config calm_env 3) 3 world).store.burns
      ≡ record { amount = 800; faircoin_address = 6 } ∷ [])
    × (length (attempts (run config calm_env 3) 3 world).store.swaps ≡ 1)
unfolding runs
order_is_burned = (refl, refl)
