-- ===== src/MasternodeRewards/Tick.antt =====
-- A tick of the masternode reward worker, as a whole
-- (services/bridge/src/workers/masternode-reward-worker.ts, `runMasternodeRewardTick`).
use faircoin_bridge.Effects.Hoare.{Ensures}
use faircoin_bridge.Effects.Keeps.{Keeps}
use faircoin_bridge.MasternodeRewards.Spending.{eligible_of, total_sent, unpaid_sats}
use faircoin_bridge.Models.Cycles.{RewardCycle}
use faircoin_bridge.Prelude.{Option, length, none, some, ℕ, ◌*◌, ◌+◌, ◌≡◌, ◌≤◌, ◌⊎◌}
use faircoin_bridge.Store.{Action, Config, Env, Store}

module _ (config : Config) (env : Env) (before : ℕ) where
  abbrev Unspent : Store → Type 0
  Unspent s = total_sent s.sends ≡ before

  -- What a tick may have sent: without a cycle to resume, no more than the reward address has
  -- received, less the fee for each eligible masternode; else what the resumed cycle has not paid.
  abbrev pub Allowed : Option (ℕ × RewardCycle) → Store → Type 0
  Allowed none s =
      (total_sent s.sends ≡ before)
      ⊎ ((n m : ℕ) × (total_sent s.sends
              + config.rewards_payout_fee_sats * length (eligible_of (env.masternodes m))
            ≤ before + env.received_sats n))
  Allowed (some (_, cycle)) s = total_sent s.sends ≤ before + unpaid_sats cycle.payouts

  abbrev Within : {A : Type 0} → Action A → Type 0
  Within m = Ensures Unspent m (λ _. Allowed none) (Allowed none)
