-- ===== src/Samples.antt =====
-- A configuration, an environment in which nothing fails, and an empty store, for the tests.
use faircoin_bridge.Effects.{Fate}
use faircoin_bridge.FairWatcher.{Payment}
use faircoin_bridge.Models.Chain.{Burn, Log, TxVout}
use faircoin_bridge.Models.Deposit.{Deposit, DepositStatus}
use faircoin_bridge.Prelude.{[], false, if◌then◌else◌, none, some, true, ◌+◌, ◌/◌, ◌==◌, ◌∷◌}
use faircoin_bridge.Store.{Config, Env, HotWalletMode, MintMode, Store}

abbrev pub config : Config
config = record {
  mint_auth_mode = MintMode.direct_eoa;
  fair_hot_wallet_mode = HotWalletMode.node_wallet;
  has_bridge_key = true;
  max_tvl_fair = 1000;
  min_deposit_sats = 10;
  bridge_fee_bps = 30;
  fair_confirmations = 6;
  base_confirmations = 20;
  per_address_daily_cap_sats = 100;
  masternode_rewards_enabled = true;
  has_reward_address = true;
  rewards_interval_ms = 10;
  rewards_min_balance_sats = 20;
  rewards_payout_fee_sats = 1;
  has_buy_key = true;
  buy_slippage_buffer_bps = 200;
  buy_bridge_fee_bps = 100;
  buy_min_sats = 100_000_000;
  buy_max_sats = 100_000_000_000;
  buy_quote_ttl_seconds = 900;
  has_card_key = false;
  has_bridge_xpub = true;
  usdc_base_address = 81;
  wfair_contract_address = 82;
  admin_api_token = some (b'k' ∷ b'e' ∷ b'y' ∷ []);
  buyback_enabled = true;
  buyback_threshold_usdc = 1;
  buyback_burn_bps = 5_000;
  buyback_treasury_bps = 3_000;
  buyback_masternode_bps = 2_000;
  fair_burn_address = 70;
  fair_treasury_address = some 71;
  fair_masternode_reward_address = some 72;
}

-- Every call succeeds, and every transaction.
abbrev pub calm_env : Env
calm_env = record {
  fate = λ _. Fate.fine;
  now = λ n. n;
  hash = λ n. 1000 + n;
  receipt = λ _ _. record { success = true; block_number = 77 };
  safe_known = λ _ _. true;
  tx_known = λ _ _. true;
  is_valid_address = λ _ _. true;
  is_bytes32 = λ _. true;
  has_signature = λ _. true;
  total_supply = λ _. 0;
  aborted = λ _. false;
  base_tip = λ _. 100;
  fair_tip = λ _. 60;
  burn_logs = λ _ _ _. [];
  block_txs = λ _ _. [];
  address_text = λ bytes. bytes;
  masternodes = λ _. [];
  received_sats = λ _. 0;
  usdc_balance = λ _. 2_000_000;
  wfair_balance = λ n. n;
  usdc_allowance = λ _. 0;
  wfair_quote = λ _ usdc. usdc;
  payment_key_address = λ i. 500 + i;
  is_base_address = λ _. true;
  eth_balance_of = λ _ _. 0;
  usdc_balance_of = λ _ _. 900;
  wfair_balance_of = λ _ _. 800;
  usdc_allowance_of = λ _ _. 0;
  wallet_balance_sats = λ _. 500;
  deposit_key_address = λ i. 300 + i;
  is_bridge_xpub = true;
  is_buy_key = true;
  pool_token0 = λ _. 81;
  pool_token1 = λ _. 82;
  pool_fee = λ _. 3_000;
  quote_exact_output = λ _ _ _ _ wfair. wfair / 1_000_000_000_000;
  is_known_address = λ _ _. true;
}

abbrev pub empty_store : Store
empty_store = record {
  deposits = [];
  withdrawals = [];
  orders = [];
  buybacks = [];
  rewards = [];
  reserves = [];
  fair_deposit_next_index = 0;
  base_buy_payment_next_index = 0;
  fair_cursor = none;
  base_cursor = none;
  mint_jobs = [];
  release_jobs = [];
  buy_jobs = [];
  address_cache = [];
  cached_pool_meta = none;
  audit_log = [];
  alerts = [];
  mints = [];
  proposals = [];
  sends = [];
  swaps = [];
  burns = [];
  approvals = [];
  top_ups = [];
}

-- Block 50 pays 40 sats to address 6, which was given out for Base address 5.
abbrev pub payment : Payment
payment = record {
  fair_address = 6;
  fair_txid = 9;
  fair_vout = 0;
  fair_block_height = 50;
  fair_confirmations = 11;
  amount_sats = 40;
}

abbrev pub intent : Deposit
intent = record {
  base_address = 5;
  fair_address = 6;
  hd_index = some 0;
  status = DepositStatus.awaiting;
  fair_txid = none;
  fair_vout = none;
  fair_block_height = none;
  fair_confirmations = 0;
  amount_sats = 0;
  amount_wei = 0;
  base_mint_tx_hash = none;
  base_mint_block_number = none;
  safe_tx_hash = none;
  client_ip = none;
  created_at = 0;
}

abbrev pub output : TxVout
output = record { n = 0; sats = 40; addresses = 6 ∷ []; address = none }

abbrev pub pay_env : Env
pay_env = record calm_env {
  block_txs = λ _ h. if h == 50 then record { txid = 9; vout = output ∷ [] } ∷ [] else [];
}

-- Base has one burn, in block 65.
abbrev pub burn : Burn
burn = record { from = 5; amount = 400_000_000_000; faircoin_address = 6 }

abbrev pub log : Log
log = record {
  transaction_hash = some 60;
  log_index = some 2;
  block_number = some 65;
  burn = some burn;
}

-- `getLogs` gives every log that it knows, which leaves out none.
abbrev pub burn_env : Env
burn_env = record calm_env { burn_logs = λ _ _ _. log ∷ [] }
