-- ===== src/MasternodeRewards.antt =====
-- services/bridge/src/workers/masternode-reward-worker.ts: it shares what the reward address has
-- received among the enabled masternodes, one payout each.
pub mod Spending
pub mod Tick
mod Tests
use faircoin_bridge.Amounts.{compute_per_masternode_sats}
use faircoin_bridge.Effects.{
  Error, act, ask, catch, look, modify, pure, query, skip, throw, ◌>>=◌, ◌>>◌,
}
use faircoin_bridge.Models.Chain.{MasternodeListEntry, MasternodeStatus}
use faircoin_bridge.Models.Cycles.{Payout, PayoutStatus, RewardCycle, RewardStatus}
use faircoin_bridge.Models.Deposit.{failed}
use faircoin_bridge.Prelude.{
  Bool, List, Option, [], any, false, if◌then◌else◌, is_some, keep, leb, length, ltb, none, some,
  suc, true, zero, ℕ, ◌&&◌, ◌++◌, ◌+◌, ◌-◌, ◌==◌, ◌||◌, ◌∷◌,
}
use faircoin_bridge.Prelude.Collection.{
  claim_by_id, claim_first, find_by_id, find_one, next_id, update_by_id,
}
use faircoin_bridge.Release.{sats_to_fair}
use faircoin_bridge.Store.{Action, Alert, Audit, Config, Env, Store, alert}

pub is_eligible : MasternodeStatus → Bool
is_eligible MasternodeStatus.enabled = true
is_eligible MasternodeStatus.other_status = false

-- `outpointKey`
outpoint_key : MasternodeListEntry → ℕ × ℕ
outpoint_key entry = (entry.txhash, entry.outidx)

same_outpoint : ℕ × ℕ → ℕ × ℕ → Bool
same_outpoint a b = a.0 == b.0 && a.1 == b.1

-- The statuses of a payout that was sent.
was_sent : PayoutStatus → Bool
was_sent PayoutStatus.broadcast = true
was_sent PayoutStatus.confirmed = true
was_sent _ = false

-- `alreadyBroadcastOutpoints`
already_broadcast_outpoints : List Payout → List (ℕ × ℕ)
already_broadcast_outpoints [] = []
already_broadcast_outpoints (p ∷ ps) =
    let rest = already_broadcast_outpoints ps in
    if is_some p.txid && was_sent p.status then p.masternode_outpoint ∷ rest else rest

is_resumable : RewardStatus → Bool
is_resumable RewardStatus.pending = true
is_resumable RewardStatus.paying_out = true
is_resumable _ = false

set_status : RewardStatus → RewardCycle → RewardCycle
set_status status c = record c { status = status }

-- `buildPayouts`
pub build_payouts : List MasternodeListEntry → ℕ → List Payout
build_payouts [] sats = []
build_payouts (entry ∷ entries) sats =
    record {
      masternode_outpoint = outpoint_key entry;
      payout_address = entry.addr;
      amount_sats = sats;
      status = PayoutStatus.pending;
      txid = none;
      has_error = false;
    }
    ∷ build_payouts entries sats

-- The update of `payouts.<index>`.
update_at : ℕ → (Payout → Payout) → List Payout → List Payout
update_at i f [] = []
update_at zero f (p ∷ ps) = f p ∷ ps
update_at (suc i) f (p ∷ ps) = p ∷ update_at i f ps

set_payout : (id i : ℕ) → (Payout → Payout) → Store → Store
set_payout id i f s = record s {
  rewards = update_by_id id (λ c. record c { payouts = update_at i f c.payouts }) s.rewards;
}

set_txid : ℕ → Payout → Payout
set_txid txid p = record p { txid = some txid }

set_broadcast : ℕ → Payout → Payout
set_broadcast txid p = record p { status = PayoutStatus.broadcast; txid = some txid }

set_failed : Payout → Payout
set_failed p = record p { status = PayoutStatus.failed; has_error = true }

is_final : PayoutStatus → Bool
is_final PayoutStatus.pending = false
is_final _ = true

all_final : List Payout → Bool
all_final [] = true
all_final (p ∷ ps) = is_final p.status && all_final ps

is_paying_out : RewardStatus → Bool
is_paying_out RewardStatus.paying_out = true
is_paying_out _ = false

final_status : (any_failed : Bool) → RewardStatus
final_status any_failed = if any_failed then RewardStatus.failed else RewardStatus.complete

set_final : (any_failed : Bool) → RewardCycle → RewardCycle
set_final any_failed c = record c { status = final_status any_failed; has_error = any_failed }

-- `claimResumableCycle`, the oldest cycle first
pub claim_resumable_cycle : Store → Option (ℕ × RewardCycle) × Store
claim_resumable_cycle s =
    let (found, c) =
      claim_first (λ c. is_resumable c.status) (set_status RewardStatus.paying_out) s.rewards in
    (found, record s { rewards = c })

-- A cycle that `create` is given.
new_cycle : (pool count per : ℕ) → List Payout → RewardStatus → RewardCycle
new_cycle pool count per payouts status = record {
  triggered_at = 0;
  pool_balance_sats = pool;
  active_masternodes = count;
  per_masternode_sats = per;
  payouts = payouts;
  status = status;
  has_error = false;
}

insert_cycle : (now : ℕ) → RewardCycle → Store → ℕ × Store
insert_cycle now c s = (
  next_id s.rewards,
  record s { rewards = s.rewards ++ (next_id s.rewards, record c { triggered_at = now }) ∷ [] },
)

module _ (config : Config) (env : Env) where
  open env use {fate}

  -- `sendToAddress` of the amount in FAIR
  broadcast_payout : (address sats : ℕ) → Action ℕ
  broadcast_payout address sats = act fate (λ n s. (
    env.hash n,
    record s { sends = record { address = address; amount = sats_to_fair sats } ∷ s.sends },
  ))

  get_raw_transaction : ℕ → Action (Unit {0})
  get_raw_transaction txid = do
    known ← ask fate (λ n. env.tx_known n txid)
    if known then skip else throw Error.no_such_tx

  not_found : Error → Action Bool
  not_found Error.no_such_tx = pure false
  not_found e = throw e

  fair_tx_exists : ℕ → Action Bool
  fair_tx_exists txid = catch (get_raw_transaction txid >> pure true) not_found

  persist_payout_txid : (id i txid : ℕ) → Action (Unit {0})
  persist_payout_txid id i txid = modify fate (set_payout id i (set_txid txid))

  mark_payout_broadcast : (id i txid : ℕ) → Action (Unit {0})
  mark_payout_broadcast id i txid = modify fate (set_payout id i (set_broadcast txid))

  mark_payout_failed : (id i : ℕ) → Action (Unit {0})
  mark_payout_failed id i = modify fate (set_payout id i set_failed)

  fail_payout : (id i : ℕ) → Alert → Action Bool
  fail_payout id i a = do mark_payout_failed id i; alert env a; pure true

  send_payout : (id i : ℕ) → Payout → Action Bool
  send_payout id i p = do
    txid ← broadcast_payout p.payout_address p.amount_sats
    persist_payout_txid id i txid
    mark_payout_broadcast id i txid
    pure false

  reconcile_payout : (id i txid : ℕ) → Bool → Action Bool
  reconcile_payout id i txid true = mark_payout_broadcast id i txid >> pure false
  reconcile_payout id i txid false = fail_payout id i (Alert.payout_missing id)

  -- One payout of `executeCycle`, by the txid on file; whether it failed.
  pay_by_txid : (id i : ℕ) → List (ℕ × ℕ) → Payout → Option ℕ → Action Bool
  pay_by_txid id i skips p (some txid) =
      if was_sent p.status then pure false else fair_tx_exists txid >>= reconcile_payout id i txid
  pay_by_txid id i skips p none =
      if any (same_outpoint p.masternode_outpoint) skips
      then pure false
      else catch (send_payout id i p) (λ _. fail_payout id i (Alert.payout_failed id))

  -- The `for` loop of `executeCycle` from the payout `i`; whether any payout failed.
  pay_all : (id i : ℕ) → List (ℕ × ℕ) → List Payout → (any_failed : Bool) → Action Bool
  pay_all id i skips [] any_failed = pure any_failed
  pay_all id i skips (p ∷ ps) any_failed =
      pay_by_txid id i skips p p.txid
      >>= (λ failed. pay_all id (i + 1) skips ps (any_failed || failed))

  finalise : ℕ → Bool → Option RewardCycle → Action (Unit {0})
  finalise id any_failed none = skip
  finalise id any_failed (some fresh) =
      if all_final fresh.payouts
      then modify fate (λ s. record s {
        rewards = (claim_by_id id (λ c. is_paying_out c.status) (set_final any_failed) s.rewards).1;
      })
        >> modify fate (λ s. record s {
          audit_log = Audit.reward_cycle_entry id (final_status any_failed) ∷ s.audit_log;
        })
      else skip

  -- `executeCycle`
  pub execute_cycle : ℕ → RewardCycle → Action (Unit {0})
  execute_cycle id cycle = do
    any_failed ← pay_all id 0 (already_broadcast_outpoints cycle.payouts) cycle.payouts false
    fresh ← query fate (λ s. find_by_id id s.rewards)
    finalise id any_failed fresh

  create_cycle : RewardCycle → Action ℕ
  create_cycle c = act fate (λ n s. insert_cycle (env.now n) c s)

  record_skip : RewardStatus → (pool count per : ℕ) → Action (Unit {0})
  record_skip status pool count per = do
    id ← create_cycle (new_cycle pool count per [] status)
    modify fate (λ s. record s { audit_log = Audit.reward_cycle_entry id status ∷ s.audit_log })

  -- `readPoolBalanceSats`
  read_pool_balance_sats : Action ℕ
  read_pool_balance_sats =
      if config.has_reward_address then ask fate env.received_sats else throw Error.transient

  execute_loaded : ℕ → Option RewardCycle → Action (Unit {0})
  execute_loaded id none = skip
  execute_loaded id (some cycle) = execute_cycle id cycle

  start_cycle : (pool per : ℕ) → List MasternodeListEntry → Action (Unit {0})
  start_cycle pool per eligible = do
    id ←
        create_cycle (
          new_cycle pool (length eligible) per (build_payouts eligible per) RewardStatus.paying_out)
    loaded ← query fate (λ s. find_by_id id s.rewards)
    execute_loaded id loaded

  per_masternode : ℕ → List MasternodeListEntry → ℕ
  per_masternode pool eligible =
      compute_per_masternode_sats pool (length eligible) config.rewards_payout_fee_sats

  start_if_enough : (pool per : ℕ) → List MasternodeListEntry → Action (Unit {0})
  start_if_enough pool per eligible =
      if leb per 0
      then record_skip RewardStatus.skipped_below_threshold pool (length eligible) per
      else start_cycle pool per eligible

  start_with : ℕ → List MasternodeListEntry → Action (Unit {0})
  start_with pool eligible =
      if ltb pool config.rewards_min_balance_sats
      then record_skip RewardStatus.skipped_below_threshold pool (length eligible) 0
      else (if leb (length eligible) 0
          then record_skip RewardStatus.skipped_no_masternodes pool 0 0
          else start_if_enough pool (per_masternode pool eligible) eligible)

  start_unless_recent : Option (ℕ × RewardCycle) → Action (Unit {0})
  start_unless_recent (some _) = skip
  start_unless_recent none = do
    pool ← read_pool_balance_sats
    list ← ask fate env.masternodes
    start_with pool (keep (λ entry. is_eligible entry.status) list)

  start_or_resume : Option (ℕ × RewardCycle) → Action (Unit {0})
  start_or_resume (some (id, cycle)) = execute_cycle id cycle
  start_or_resume none = do
    recent ← act fate (λ n s.
        (find_one (λ c. leb (env.now n - config.rewards_interval_ms) c.triggered_at) s.rewards, s))
    start_unless_recent recent

  -- `runMasternodeRewardTick`
  pub run_masternode_reward_tick : Action (Unit {0})
  run_masternode_reward_tick =
      if config.masternode_rewards_enabled
      then act fate (λ _ s. claim_resumable_cycle s) >>= start_or_resume
      else skip

  -- The loop of `startMasternodeRewardWorker`, for a number of rounds.
  reward_rounds : ℕ → Action (Unit {0})
  reward_rounds zero = skip
  reward_rounds (suc rounds) = do
    let next = reward_rounds rounds
    aborted ← look env.aborted
    if aborted
        then skip
        else catch run_masternode_reward_tick (λ _. alert env (Alert.reward_tick_failed)) >> next

  -- `startMasternodeRewardWorker`
  pub masternode_reward_worker : ℕ → Action (Unit {0})
  masternode_reward_worker rounds =
      if config.masternode_rewards_enabled then reward_rounds rounds else skip
