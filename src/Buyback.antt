-- ===== src/Buyback.antt =====
-- services/bridge/src/workers/buyback-worker.ts: it swaps the USDC that the bridge has earned for
-- WFAIR, splits it, and burns each share to its FairCoin destination.
pub mod Burning
pub mod Hashes
mod Tests
use faircoin_bridge.Amounts.{Shares, apply_fee, split_by_bps}
use faircoin_bridge.Effects.{
  Error, act, ask, catch, look, modify, pure, query, skip, throw, ◌>>=◌, ◌>>◌,
}
use faircoin_bridge.Models.Cycles.{BuybackCycle, BuybackStatus}
use faircoin_bridge.Prelude.{
  Bool, List, Option, [], false, if◌then◌else◌, leb, ltb, none, some, suc, true, zero, ℕ, ◌*◌, ◌++◌,
  ◌-◌, ◌∷◌,
}
use faircoin_bridge.Prelude.Collection.{find_by_id, find_one, next_id, update_by_id}
use faircoin_bridge.Store.{Action, Alert, Audit, Config, Env, Receipt, Store, alert, require_wallet}

-- `Destinations`
pub record Destinations : Type 0 where
  pub burn : ℕ
  pub treasury : ℕ
  pub masternode : ℕ

-- The three burns, which the source tells apart by their `label`.
pub data Label : Type 0 where
  burn_label treasury_label masternode_label : Label

-- `BurnStepConfig`
pub record BurnStepConfig : Type 0 where
  pub label : Label
  pub destination : ℕ
  pub amount : ℕ

step_status : Label → BuybackStatus
step_status burn_label = BuybackStatus.burning
step_status treasury_label = BuybackStatus.treasury_sending
step_status masternode_label = BuybackStatus.masternode_sending

-- `cycle[step.txHashField]`
pub step_hash : Label → BuybackCycle → Option ℕ
step_hash burn_label c = c.burn_tx_hash
step_hash treasury_label c = c.treasury_tx_hash
step_hash masternode_label c = c.masternode_tx_hash

pub set_step_hash : Label → ℕ → BuybackCycle → BuybackCycle
set_step_hash burn_label h c = record c { burn_tx_hash = some h }
set_step_hash treasury_label h c = record c { treasury_tx_hash = some h }
set_step_hash masternode_label h c = record c { masternode_tx_hash = some h }

pub set_step_amount : Label → ℕ → BuybackCycle → BuybackCycle
set_step_amount burn_label a c = record c { burn_amount_wei = some a }
set_step_amount treasury_label a c = record c { treasury_amount_wei = some a }
set_step_amount masternode_label a c = record c { masternode_amount_wei = some a }

pub set_status : BuybackStatus → BuybackCycle → BuybackCycle
set_status status c = record c { status = status }

pub start_step : BurnStepConfig → BuybackCycle → BuybackCycle
start_step step c = set_status (step_status step.label) (set_step_amount step.label step.amount c)

pub set_failed : BuybackCycle → BuybackCycle
set_failed c = record c { status = BuybackStatus.failed; has_error = true }

set_swap_hash : ℕ → BuybackCycle → BuybackCycle
set_swap_hash h c = record c { swap_tx_hash = some h }

set_acquired : ℕ → BuybackCycle → BuybackCycle
set_acquired wei c = record c { wfair_acquired_wei = some wei }

set_cycle : ℕ → (BuybackCycle → BuybackCycle) → Store → Store
set_cycle id f s = record s { buybacks = update_by_id id f s.buybacks }

is_open : BuybackStatus → Bool
is_open BuybackStatus.complete = false
is_open BuybackStatus.failed = false
is_open _ = true

new_cycle : (now usdc : ℕ) → BuybackCycle
new_cycle now usdc = record {
  triggered_at = now;
  usdc_amount = usdc;
  swap_tx_hash = none;
  wfair_acquired_wei = none;
  burn_tx_hash = none;
  treasury_tx_hash = none;
  masternode_tx_hash = none;
  burn_amount_wei = none;
  treasury_amount_wei = none;
  masternode_amount_wei = none;
  status = BuybackStatus.pending;
  has_error = false;
}

insert_cycle : (now usdc : ℕ) → Store → Option (ℕ × BuybackCycle) × Store
insert_cycle now usdc s = (
  some (next_id s.buybacks, new_cycle now usdc),
  record s { buybacks = s.buybacks ++ (next_id s.buybacks, new_cycle now usdc) ∷ [] },
)

buyback_minout_buffer_bps : ℕ
buyback_minout_buffer_bps = 200

-- The three steps in the order of `runOneCycle`.
burn_steps : Destinations → Shares → List BurnStepConfig
burn_steps dest shares =
    record { label = burn_label; destination = dest.burn; amount = shares.burn }
    ∷ record { label = treasury_label; destination = dest.treasury; amount = shares.treasury }
    ∷ record { label = masternode_label; destination = dest.masternode; amount = shares.masternode }
    ∷ []

module _ (config : Config) (env : Env) where
  open env use {fate}

  destinations_of : Option ℕ → Option ℕ → Action Destinations
  destinations_of (some treasury) (some masternode) =
      pure
        (record { burn = config.fair_burn_address; treasury = treasury; masternode = masternode })
  destinations_of _ _ = throw Error.transient

  -- `resolveDestinations`
  resolve_destinations : Action Destinations
  resolve_destinations =
      destinations_of config.fair_treasury_address config.fair_masternode_reward_address

  validate_one : ℕ → Action (Unit {0})
  validate_one address = do
    valid ← catch (ask fate (λ n. env.is_valid_address n address)) (λ _. pure false)
    if valid then skip else throw Error.transient

  -- `validateDestinations`
  validate_destinations : Destinations → Action (Unit {0})
  validate_destinations dest = do
    validate_one dest.burn
    validate_one dest.treasury
    validate_one dest.masternode

  claim_or_create : ℕ → Option (ℕ × BuybackCycle) → Action (Option (ℕ × BuybackCycle))
  claim_or_create usdc (some found) = pure (some found)
  claim_or_create usdc none =
      if ltb usdc (config.buyback_threshold_usdc * 1_000_000)
      then pure none
      else act fate (λ n s. insert_cycle (env.now n) usdc s)

  -- `claimOrLoadInFlightCycle`
  claim_or_load_in_flight_cycle : ℕ → Action (Option (ℕ × BuybackCycle))
  claim_or_load_in_flight_cycle usdc =
      query fate (λ s. find_one (λ c. is_open c.status) s.buybacks) >>= claim_or_create usdc

  update_cycle : ℕ → (BuybackCycle → BuybackCycle) → Action (Unit {0})
  update_cycle id f = modify fate (set_cycle id f)

  approve : ℕ → Action ℕ
  approve amount = do
    require_wallet config
    act fate (λ n s. (env.hash n, record s { approvals = amount ∷ s.approvals }))

  -- `waitForTransactionReceipt`
  wait_receipt : ℕ → Action Receipt
  wait_receipt hash = ask fate (λ n. env.receipt n hash)

  -- `ensureUsdcApproval`
  ensure_usdc_approval : ℕ → Action (Unit {0})
  ensure_usdc_approval amount = do
    allowance ← ask fate env.usdc_allowance
    if leb amount allowance
        then skip
        else approve amount
          >>= wait_receipt
          >>= (λ receipt. if receipt.success then skip else throw Error.reverted)

  -- `broadcastSwap`
  broadcast_swap : ℕ → Action ℕ
  broadcast_swap usdc = do
    expected ← ask fate (λ n. env.wfair_quote n usdc)
    require_wallet config
    act fate (λ n s. (
      env.hash n,
      record s {
        swaps =
            record {
              amount_in = usdc;
              amount_out_minimum = apply_fee expected buyback_minout_buffer_bps;
            }
            ∷ s.swaps;
      },
    ))

  -- `broadcastBridgeBurn`
  broadcast_bridge_burn : (amount address : ℕ) → Action ℕ
  broadcast_bridge_burn amount address = do
    require_wallet config
    act fate (λ n s. (
      env.hash n,
      record s { burns = record { amount = amount; faircoin_address = address } ∷ s.burns },
    ))

  -- `markFailed`
  mark_failed : ℕ → Action (Unit {0})
  mark_failed id = do update_cycle id set_failed; alert env (Alert.buyback_failed id)

  -- The end of a cycle whose transaction reverted.
  fail_cycle : {A : Type 0} → ℕ → Action A
  fail_cycle id = mark_failed id >> throw Error.reverted

  require_success : ℕ → Receipt → Action (Unit {0})
  require_success id receipt = if receipt.success then skip else fail_cycle id

  acquired_or_balance : ℕ → Option ℕ → Action ℕ
  acquired_or_balance id (some wei) = pure wei
  acquired_or_balance id none = do
    wei ← ask fate env.wfair_balance
    update_cycle id (set_acquired wei)
    pure wei

  with_cycle : ℕ → Option BuybackCycle → Action (ℕ × BuybackCycle)
  with_cycle wei none = throw Error.transient
  with_cycle wei (some c) = pure (wei, c)

  reload_with : ℕ → ℕ → Action (ℕ × BuybackCycle)
  reload_with id wei = query fate (λ s. find_by_id id s.buybacks) >>= with_cycle wei

  record_acquired : (id before after : ℕ) → Action ℕ
  record_acquired id before after =
      if leb after before
      then fail_cycle id
      else update_cycle id (set_acquired (after - before)) >> pure (after - before)

  swap_by_hash : ℕ → BuybackCycle → Option ℕ → Action (ℕ × BuybackCycle)
  swap_by_hash id c (some hash) = do
    receipt ← wait_receipt hash
    require_success id receipt
    wei ← acquired_or_balance id c.wfair_acquired_wei
    reload_with id wei
  swap_by_hash id c none = do
    update_cycle id (set_status BuybackStatus.swapping)
    ensure_usdc_approval c.usdc_amount
    before ← ask fate env.wfair_balance
    hash ← broadcast_swap c.usdc_amount
    update_cycle id (set_swap_hash hash)
    receipt ← wait_receipt hash
    require_success id receipt
    after ← ask fate env.wfair_balance
    wei ← record_acquired id before after
    reload_with id wei

  -- `runSwapStep`
  pub run_swap_step : ℕ → BuybackCycle → Action (ℕ × BuybackCycle)
  run_swap_step id c = swap_by_hash id c c.swap_tx_hash

  burn_by_hash : ℕ → BurnStepConfig → Option ℕ → Action (Unit {0})
  burn_by_hash id step (some hash) = wait_receipt hash >>= require_success id
  burn_by_hash id step none = do
    update_cycle id (start_step step)
    hash ← broadcast_bridge_burn step.amount step.destination
    update_cycle id (set_step_hash step.label hash)
    receipt ← wait_receipt hash
    require_success id receipt

  -- `runBurnStep`
  pub run_burn_step : ℕ → BuybackCycle → BurnStepConfig → Action (Unit {0})
  run_burn_step id c step = burn_by_hash id step (step_hash step.label c)

  reloaded : Option BuybackCycle → Action BuybackCycle
  reloaded none = throw Error.transient
  reloaded (some c) = pure c

  -- The `for` loop of `runOneCycle` over the burn steps.
  run_burn_steps : ℕ → BuybackCycle → List BurnStepConfig → Action (Unit {0})
  run_burn_steps id c [] = skip
  run_burn_steps id c (step ∷ steps) = do
    run_burn_step id c step
    fresh ← query fate (λ s. find_by_id id s.buybacks) >>= reloaded
    run_burn_steps id fresh steps

  write_audit : ℕ → Action (Unit {0})
  write_audit id =
      catch (modify fate (λ s. record s { audit_log = Audit.buyback_cycle_entry id ∷ s.audit_log }))
        (λ _. alert env (Alert.buyback_audit_failed id))

  distribute : ℕ → Destinations → BuybackCycle → Option Shares → Action (Unit {0})
  distribute id dest c none = throw Error.transient
  distribute id dest c (some shares) = do
    run_burn_steps id c (burn_steps dest shares)
    update_cycle id (set_status BuybackStatus.complete)
    write_audit id

  pub split_and_burn : ℕ → Destinations → ℕ × BuybackCycle → Action (Unit {0})
  split_and_burn id dest (wei, c) =
      distribute id dest c
        (split_by_bps wei config.buyback_treasury_bps config.buyback_masternode_bps)

  warn_if_open : ℕ → Option BuybackCycle → Action (Unit {0})
  warn_if_open id none = skip
  warn_if_open id (some c) =
      if is_open c.status then alert env (Alert.buyback_interrupted id) else skip

  rethrow_open : ℕ → Error → Action (Unit {0})
  rethrow_open id e = do
    fresh ← query fate (λ s. find_by_id id s.buybacks)
    warn_if_open id fresh
    throw e

  run_cycle : Destinations → Option (ℕ × BuybackCycle) → Action (Unit {0})
  run_cycle dest none = skip
  run_cycle dest (some (id, c)) =
      catch (run_swap_step id c >>= split_and_burn id dest) (rethrow_open id)

  -- `runOneCycle`
  pub run_one_cycle : Action (Unit {0})
  run_one_cycle =
      if config.buyback_enabled
      then require_wallet config >> resolve_destinations >>= (λ dest.
        validate_destinations dest
        >> ask fate env.usdc_balance
        >>= claim_or_load_in_flight_cycle
        >>= run_cycle dest)
      else skip

  -- The loop of `startBuybackWorker`, for a number of rounds.
  buyback_rounds : ℕ → Action (Unit {0})
  buyback_rounds zero = skip
  buyback_rounds (suc rounds) = do
    let next = buyback_rounds rounds
    aborted ← look env.aborted
    if aborted then skip else catch run_one_cycle (λ _. skip) >> next

  start_rounds : ℕ → Bool → Action (Unit {0})
  start_rounds rounds true = buyback_rounds rounds
  start_rounds rounds false = skip

  -- `startBuybackWorker`: it does not start where a destination is not set or not valid.
  pub buyback_worker : ℕ → Action (Unit {0})
  buyback_worker rounds =
      if config.buyback_enabled
      then catch (resolve_destinations >>= validate_destinations >> pure true)
          (λ _. alert env (Alert.buyback_refused) >> pure false)
        >>= start_rounds rounds
      else skip
