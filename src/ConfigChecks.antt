-- ===== src/ConfigChecks.antt =====
-- The checks of services/bridge/src/config.ts that span several settings (`superRefine`).
pub mod Accepted
mod Tests
use faircoin_bridge.Prelude.{
  Bool, List, [], false, is_none, not, true, ℕ, ◌&&◌, ◌++◌, ◌+◌, ◌==◌, ◌∷◌,
}
use faircoin_bridge.Store.{Config}

pub data Issue : Type 0 where
  bps_sum : ℕ → Issue
  treasury_address_required masternode_address_required : Issue
  reward_address_required : Issue

when : Bool → Issue → List Issue
when true issue = issue ∷ []
when false issue = []

bps_total : Config → ℕ
bps_total cfg = cfg.buyback_burn_bps + cfg.buyback_treasury_bps + cfg.buyback_masternode_bps

-- What `superRefine` adds, in its order; the service starts only if there is nothing.
unfoldable pub check_config : Config → List Issue
unfolding when bps_total
check_config cfg =
    when (not (bps_total cfg == 10_000)) (bps_sum (bps_total cfg))
    ++ (when (cfg.buyback_enabled && is_none cfg.fair_treasury_address) treasury_address_required
        ++ (when (cfg.buyback_enabled && is_none cfg.fair_masternode_reward_address)
              masternode_address_required
            ++ when (cfg.masternode_rewards_enabled && is_none cfg.fair_masternode_reward_address)
                reward_address_required))
