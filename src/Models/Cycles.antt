-- ===== src/Models/Cycles.antt =====
-- services/bridge/src/models/buyback-cycle.ts and masternode-reward-cycle.ts
use faircoin_bridge.Prelude.{Bool, List, Option, ℕ}

pub data BuybackStatus : Type 0 where
  pending swapping burning treasury_sending masternode_sending complete failed : BuybackStatus

pub record BuybackCycle : Type 0 where
  pub triggered_at : ℕ
  pub usdc_amount : ℕ
  pub swap_tx_hash : Option ℕ
  pub wfair_acquired_wei : Option ℕ
  pub burn_tx_hash : Option ℕ
  pub treasury_tx_hash : Option ℕ
  pub masternode_tx_hash : Option ℕ
  pub burn_amount_wei : Option ℕ
  pub treasury_amount_wei : Option ℕ
  pub masternode_amount_wei : Option ℕ
  pub status : BuybackStatus
  pub has_error : Bool

pub data PayoutStatus : Type 0 where
  pending broadcast confirmed failed : PayoutStatus

pub record Payout : Type 0 where
  -- the transaction and the index behind the source's "txhash-outidx"
  pub masternode_outpoint : ℕ × ℕ
  pub payout_address : ℕ
  pub amount_sats : ℕ
  pub status : PayoutStatus
  pub txid : Option ℕ
  pub has_error : Bool

pub data RewardStatus : Type 0 where
  pending paying_out complete failed : RewardStatus
  skipped_no_masternodes skipped_below_threshold skipped_disabled : RewardStatus

pub record RewardCycle : Type 0 where
  pub triggered_at : ℕ
  pub pool_balance_sats : ℕ
  pub active_masternodes : ℕ
  pub per_masternode_sats : ℕ
  pub payouts : List Payout
  pub status : RewardStatus
  pub has_error : Bool
