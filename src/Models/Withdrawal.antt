-- ===== src/Models/Withdrawal.antt =====
-- services/bridge/src/models/withdrawal.ts
use faircoin_bridge.Prelude.{Option, ℕ}

pub data WithdrawalStatus : Type 0 where
  detected confirmed signing broadcast final failed : WithdrawalStatus

pub record Withdrawal : Type 0 where
  pub base_burn_tx_hash : ℕ
  pub base_block_number : ℕ
  pub log_index : ℕ
  pub from_base_address : ℕ
  pub destination_fair_address : ℕ
  pub amount_wei : ℕ
  pub amount_sats : ℕ
  pub status : WithdrawalStatus
  pub fair_txid : Option ℕ
  pub fair_confirmations : ℕ
  pub fair_broadcast_at : Option ℕ
  pub created_at : ℕ
