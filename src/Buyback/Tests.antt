-- ===== src/Buyback/Tests.antt =====
-- The buy-back worker at concrete inputs.
use faircoin_bridge.Amounts.{Shares, apply_fee, shares_unless, split_by_bps, split_by_bps_exact}
use faircoin_bridge.Buyback.{
  Destinations, acquired_or_balance, approve, broadcast_bridge_burn, broadcast_swap, burn_by_hash,
  burn_steps, buyback_minout_buffer_bps, claim_or_create, claim_or_load_in_flight_cycle,
  destinations_of, distribute, ensure_usdc_approval, fail_cycle, insert_cycle, is_open, mark_failed,
  new_cycle, record_acquired, reload_with, reloaded, require_success, resolve_destinations,
  rethrow_open, run_burn_step, run_burn_steps, run_cycle, run_one_cycle, run_swap_step,
  set_acquired, set_cycle, set_failed, set_status, set_step_amount, set_step_hash, set_swap_hash,
  split_and_burn, start_step, step_hash, step_status, swap_by_hash, update_cycle,
  validate_destinations, validate_one, wait_receipt, warn_if_open, with_cycle, write_audit,
}
use faircoin_bridge.Buyback.Burning.{left_to_burn, shares_of, split_and_burn_within, total_burned}
use faircoin_bridge.Effects.{
  Fate, World, act, ask, catch, modify, pure, query, skip, throw, ◌>>=◌, ◌>>◌,
}
use faircoin_bridge.Models.Cycles.{BuybackCycle, BuybackStatus}
use faircoin_bridge.Prelude.{
  [], arith, false, if◌then◌else◌, none, refl, some, ◌+◌, ◌==◌, ◌∷◌, ◌≡◌, ◌≤◌,
}
use faircoin_bridge.Prelude.Collection.{find_by_id, find_one, next_id, update_by_id}
use faircoin_bridge.Samples.{calm_env, config, empty_store}
use faircoin_bridge.Store.{Env, Store, alert, quiet, require_wallet}

abbrev destinations : Destinations
destinations = record { burn = 70; treasury = 71; masternode = 72 }

-- The swap has acquired 1001 wei, and its hash is on file.
abbrev swapped : BuybackCycle
swapped = record {
  triggered_at = 0;
  usdc_amount = 2_000_000;
  swap_tx_hash = some 44;
  wfair_acquired_wei = some 1_001;
  burn_tx_hash = none;
  treasury_tx_hash = none;
  masternode_tx_hash = none;
  burn_amount_wei = none;
  treasury_amount_wei = none;
  masternode_amount_wei = none;
  status = BuybackStatus.swapping;
  has_error = false;
}

-- The process is killed while it waits for the receipt of the second burn.
abbrev killed_env : Env
killed_env = record calm_env { fate = λ n. if n == 15 then Fate.dies_after else Fate.fine }

world : World Store
world = record { clock = 0; store = record empty_store { buybacks = (3, swapped) ∷ [] } }

split_and_burn_within_example :
    (total_burned
        (split_and_burn config killed_env 3 destinations (1_001, swapped) world).1.store.burns
      ≤ total_burned world.store.burns + left_to_burn swapped (shares_of config 1_001))
    × (left_to_burn swapped (shares_of config 1_001) ≤ 1_001)
unfolding world find_by_id
split_and_burn_within_example =
    split_and_burn_within config killed_env 3 destinations 1_001 swapped world refl

split_by_bps_exact_example :
    (shares : Shares) × (split_by_bps 1_001 3_000 2_000 ≡ some shares)
    × (shares.burn + shares.treasury + shares.masternode ≡ 1_001)
split_by_bps_exact_example = split_by_bps_exact 1_001 3_000 2_000 (omega arith)

-- What one line of a test names to let the worker run.
runs : Unit {0}
unfolding world run_one_cycle resolve_destinations destinations_of validate_destinations
    validate_one claim_or_load_in_flight_cycle claim_or_create insert_cycle new_cycle next_id
    is_open run_cycle run_swap_step swap_by_hash wait_receipt require_success fail_cycle mark_failed
    set_failed acquired_or_balance reload_with with_cycle update_cycle set_cycle set_status
    ensure_usdc_approval approve broadcast_swap record_acquired set_swap_hash set_acquired
    split_and_burn distribute burn_steps run_burn_steps run_burn_step burn_by_hash step_hash
    set_step_hash set_step_amount start_step step_status broadcast_bridge_burn reloaded write_audit
    rethrow_open warn_if_open find_by_id update_by_id find_one apply_fee split_by_bps shares_unless
    buyback_minout_buffer_bps require_wallet alert quiet query ask modify act skip pure throw catch
    ◌>>=◌ ◌>>◌
runs = tt

-- A cycle that is killed in the middle and run again burns each share once.
resumed_cycle_burns_once :
    (run_one_cycle config killed_env (run_one_cycle config killed_env world).1).1.store.burns
    ≡ record { amount = 200; faircoin_address = 72 }
      ∷ record { amount = 300; faircoin_address = 71 }
      ∷ record { amount = 501; faircoin_address = 70 }
      ∷ []
unfolding runs
resumed_cycle_burns_once = refl
