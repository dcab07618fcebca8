-- ===== src/Models/BuyOrder.antt =====
-- services/bridge/src/models/buy-order.ts
use faircoin_bridge.Prelude.{Bool, Option, ℕ}

pub data BuyOrderStatus : Type 0 where
  awaiting_payment payment_detected swapping burning : BuyOrderStatus
  delivering delivered failed expired : BuyOrderStatus

pub data PaymentCurrency : Type 0 where
  usdc_base eth_base eth_mainnet btc card : PaymentCurrency

pub record FeeBreakdown : Type 0 where
  pub uniswap_bps : ℕ
  pub bridge_bps : ℕ
  pub slippage_buffer_bps : ℕ

pub record BuyOrder : Type 0 where
  pub fair_amount_sats : ℕ
  pub fair_destination_address : ℕ
  pub payment_currency : PaymentCurrency
  pub payment_address : Option ℕ
  pub payment_amount : ℕ
  pub card_payment_url : Option ℕ
  pub payment_hd_index : Option ℕ
  pub payment_expires_at : ℕ
  pub status : BuyOrderStatus
  -- the balance that was seen, behind the source's "balance:" prefix
  pub payment_detected_tx_hash : Option ℕ
  pub swap_tx_hash : Option ℕ
  pub swap_wfair_out : Option ℕ
  pub burn_tx_hash : Option ℕ
  pub release_fair_tx_id : Option ℕ
  pub fee_breakdown : FeeBreakdown
  pub user_identifier : Option ℕ
  pub client_ip : Option ℕ
  pub has_error : Bool
