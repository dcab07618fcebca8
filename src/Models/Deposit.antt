-- ===== src/Models/Deposit.antt =====
-- services/bridge/src/models/deposit.ts
use faircoin_bridge.Prelude.{Option, ℕ}

pub data DepositStatus : Type 0 where
  awaiting detected confirmed minting minted failed : DepositStatus

pub record Deposit : Type 0 where
  pub base_address : ℕ
  pub fair_address : ℕ
  -- `none` is the index -1 of an address that no document explains
  pub hd_index : Option ℕ
  pub status : DepositStatus
  pub fair_txid : Option ℕ
  pub fair_vout : Option ℕ
  pub fair_block_height : Option ℕ
  pub fair_confirmations : ℕ
  pub amount_sats : ℕ
  pub amount_wei : ℕ
  pub base_mint_tx_hash : Option ℕ
  pub base_mint_block_number : Option ℕ
  pub safe_tx_hash : Option ℕ
  pub client_ip : Option ℕ
  pub created_at : ℕ
