-- ===== src/Store.antt =====
-- What the parts of the service share: the collections, the queues (services/bridge/src/queues.ts),
-- the audit log and the alerts, and, as records of what has left the service, the transactions that
-- it has sent to the two chains. `Env` is everything that the service does not decide: how each
-- awaited call ends, and what the chains, faircoind and the clock answer at each moment.
use faircoin_bridge.Effects.{Error, Fate, M, modify, query, skip, throw}
use faircoin_bridge.Models.BuyOrder.{BuyOrder}
use faircoin_bridge.Models.Chain.{BlockTx, Log, MasternodeListEntry}
use faircoin_bridge.Models.Cycles.{BuybackCycle, RewardCycle, RewardStatus}
use faircoin_bridge.Models.Deposit.{Deposit}
use faircoin_bridge.Models.Withdrawal.{Withdrawal}
use faircoin_bridge.Prelude.{Bool, List, Option, if◌then◌else◌, ℕ, ◌∷◌}
use faircoin_bridge.Prelude.Collection.{Collection}
use faircoin_bridge.Prelude.Int.{ℤ}

pub record MintJob : Type 0 where
  pub deposit_id : ℕ
  pub base_address : ℕ
  pub amount_wei : ℕ
  pub fair_txid : ℕ
  pub fair_vout : ℕ

pub record ReleaseJob : Type 0 where
  pub withdrawal_id : ℕ
  pub destination_fair_address : ℕ
  pub amount_sats : ℕ
  pub base_burn_tx_hash : ℕ
  pub log_index : ℕ

pub data MintMode : Type 0 where
  direct_eoa safe_proposal : MintMode

pub data HotWalletMode : Type 0 where
  node_wallet local_hd : HotWalletMode

-- The part of services/bridge/src/config.ts that the handlers read. Amounts given in FAIR are held
-- in sats, as each use rounds them.
pub record Config : Type 0 where
  pub mint_auth_mode : MintMode
  pub fair_hot_wallet_mode : HotWalletMode
  -- BRIDGE_EOA_PRIVATE_KEY is set
  pub has_bridge_key : Bool
  pub max_tvl_fair : ℕ
  pub min_deposit_sats : ℕ
  pub bridge_fee_bps : ℕ
  pub fair_confirmations : ℕ
  pub base_confirmations : ℕ
  pub per_address_daily_cap_sats : ℕ
  pub masternode_rewards_enabled : Bool
  -- FAIR_MASTERNODE_REWARD_ADDRESS is set
  pub has_reward_address : Bool
  pub rewards_interval_ms : ℕ
  pub rewards_min_balance_sats : ℕ
  pub rewards_payout_fee_sats : ℕ
  -- BUY_PAYMENT_HD_XPRV or BUY_PAYMENT_HD_MNEMONIC is set
  pub has_buy_key : Bool
  pub buy_slippage_buffer_bps : ℕ
  pub buy_bridge_fee_bps : ℕ
  pub buy_min_sats : ℕ
  pub buy_max_sats : ℕ
  pub buy_quote_ttl_seconds : ℕ
  -- MOONPAY_API_KEY or TRANSAK_API_KEY is set
  pub has_card_key : Bool
  -- FAIR_BRIDGE_XPUB is set
  pub has_bridge_xpub : Bool
  pub usdc_base_address : ℕ
  pub wfair_contract_address : ℕ
  -- the code units of ADMIN_API_TOKEN
  pub admin_api_token : Option (List ℕ)
  pub buyback_enabled : Bool
  pub buyback_threshold_usdc : ℕ
  pub buyback_burn_bps : ℕ
  pub buyback_treasury_bps : ℕ
  pub buyback_masternode_bps : ℕ
  -- FAIR_BURN_ADDRESS, or the canonical burn address of the network
  pub fair_burn_address : ℕ
  pub fair_treasury_address : Option ℕ
  pub fair_masternode_reward_address : Option ℕ

-- `PoolMeta` of services/bridge/src/rpc/uniswap.ts
pub record PoolMeta : Type 0 where
  pub token0 : ℕ
  pub token1 : ℕ
  pub fee : ℕ
  pub wfair : ℕ
  pub usdc : ℕ

-- services/bridge/src/models/reserves-snapshot.ts
pub record ReservesSnapshot : Type 0 where
  pub at : ℕ
  pub fair_custody_sats : ℕ
  pub wfair_supply_wei : ℕ
  pub delta_sats : ℤ
  pub peg_healthy : Bool

-- A `mintForDeposit` transaction that was broadcast.
pub record Mint : Type 0 where
  pub to : ℕ
  pub amount : ℕ
  pub faircoin_txid : ℕ
  pub vout : ℕ

-- An amount of FAIR as `sendtoaddress` is given it, a double, with the sats that it was made from.
pub record Fair : Type 0 where
  pub sats : ℕ
  pub double : ℕ

-- A `sendtoaddress` that faircoind was asked for.
pub record Send : Type 0 where
  pub address : ℕ
  pub amount : Fair

-- An `exactInputSingle` swap of USDC for WFAIR that was broadcast.
pub record Swap : Type 0 where
  pub amount_in : ℕ
  pub amount_out_minimum : ℕ

-- A `bridgeBurn` transaction that was broadcast.
pub record BridgeBurn : Type 0 where
  pub amount : ℕ
  pub faircoin_address : ℕ

pub data Audit : Type 0 where
  sign_mint_entry : ℕ → ℕ → Audit
  sign_release_entry : ℕ → ℕ → Audit
  buyback_cycle_entry : ℕ → Audit
  reward_cycle_entry : ℕ → RewardStatus → Audit
  buy_entry : ℕ → Audit

pub data Alert : Type 0 where
  mint_reverted proposal_missing proposal_ready mint_job_failed : ℕ → Alert
  release_missing release_job_failed : ℕ → Alert
  bad_burn_address withdrawal_over_cap : ℕ → Alert
  unsolicited_deposit dust_deposit deposit_over_cap tvl_exceeded : ℕ → Alert
  payout_missing payout_failed : ℕ → Alert
  buyback_failed buyback_interrupted buyback_audit_failed : ℕ → Alert
  buy_job_failed buy_audit_failed : ℕ → Alert
  reward_tick_failed buyback_refused : Alert

pub record Store : Type 0 where
  pub deposits : Collection Deposit
  pub withdrawals : Collection Withdrawal
  pub orders : Collection BuyOrder
  pub buybacks : Collection BuybackCycle
  pub rewards : Collection RewardCycle
  pub reserves : Collection ReservesSnapshot
  -- `nextIndex` of the two rows of `hd_state`; a row that is not there yet counts as 0
  pub fair_deposit_next_index : ℕ
  pub base_buy_payment_next_index : ℕ
  pub fair_cursor : Option ℕ
  pub base_cursor : Option ℕ
  pub mint_jobs : List MintJob
  pub release_jobs : List ReleaseJob
  -- `BuyJob`: the order's key
  pub buy_jobs : List ℕ
  -- what the process keeps in memory: the deposit addresses that it has given out or loaded, and
  -- the pool that it has read
  pub address_cache : List ℕ
  pub cached_pool_meta : Option PoolMeta
  pub audit_log : List Audit
  pub alerts : List Alert
  -- the newest first
  pub mints : List Mint
  pub proposals : List Mint
  pub sends : List Send
  pub swaps : List Swap
  pub burns : List BridgeBurn
  -- USDC approvals of the swap router
  pub approvals : List ℕ
  -- payments of ETH for the gas of a payment address
  pub top_ups : List ℕ

pub record Receipt : Type 0 where
  pub success : Bool
  pub block_number : ℕ

-- Each answer is a function of the moment at which it is asked for.
pub record Env : Type 0 where
  pub fate : ℕ → Fate
  pub now : ℕ → ℕ
  -- the hash or txid of what is sent
  pub hash : ℕ → ℕ
  pub receipt : ℕ → ℕ → Receipt
  -- the Safe service knows this proposal; faircoind knows this transaction
  pub safe_known : ℕ → ℕ → Bool
  pub tx_known : ℕ → ℕ → Bool
  pub is_valid_address : ℕ → ℕ → Bool
  -- a txid has the 64 hex digits of 32 bytes
  pub is_bytes32 : ℕ → Bool
  pub has_signature : ℕ → Bool
  pub total_supply : ℕ → ℕ
  -- the signal that stops the watchers and workers
  pub aborted : ℕ → Bool
  -- the heights of the two chains
  pub base_tip : ℕ → ℕ
  pub fair_tip : ℕ → ℕ
  -- `getLogs` for BridgeBurn between two blocks, both included
  pub burn_logs : ℕ → ℕ → ℕ → List Log
  pub block_txs : ℕ → ℕ → List BlockTx
  -- the text that a destination's bytes decode to, trimmed
  pub address_text : ℕ → ℕ
  -- `masternodelist`, and what the reward address has received
  pub masternodes : ℕ → List MasternodeListEntry
  pub received_sats : ℕ → ℕ
  -- balances and the allowance of the bridge's account, and the quoter
  pub usdc_balance : ℕ → ℕ
  pub wfair_balance : ℕ → ℕ
  pub usdc_allowance : ℕ → ℕ
  pub wfair_quote : ℕ → ℕ → ℕ
  -- the address of the key that is derived for an index, and the balances of such an address
  pub payment_key_address : ℕ → ℕ
  pub is_base_address : ℕ → Bool
  pub eth_balance_of : ℕ → ℕ → ℕ
  pub usdc_balance_of : ℕ → ℕ → ℕ
  pub wfair_balance_of : ℕ → ℕ → ℕ
  pub usdc_allowance_of : ℕ → ℕ → ℕ
  -- what the wallet of faircoind holds
  pub wallet_balance_sats : ℕ → ℕ
  -- the deposit address that is derived for an index; the configured keys can be decoded
  pub deposit_key_address : ℕ → ℕ
  pub is_bridge_xpub : Bool
  pub is_buy_key : Bool
  -- the tokens and the fee of the pool, and `quoteExactOutputSingle` of the quoter for
  -- `tokenIn`, `tokenOut`, `fee` and the amount that comes out
  pub pool_token0 : ℕ → ℕ
  pub pool_token1 : ℕ → ℕ
  pub pool_fee : ℕ → ℕ
  pub quote_exact_output : ℕ → ℕ → ℕ → ℕ → ℕ → ℕ
  -- an address that the service has given out
  pub is_known_address : ℕ → ℕ → Bool

-- One handler's step.
abbrev pub Action : Type 0 → Type 0
Action = M Store

-- What the process keeps in memory is read and written without waiting.
unfoldable pub recall : {A : Type 0} → (Store → A) → Action A
recall f = query (λ _. Fate.fine) f

unfoldable pub remember : (Store → Store) → Action (Unit {0})
remember f = modify (λ _. Fate.fine) f

-- An alert never throws; the process may still be killed while it is sent.
unfoldable pub quiet : Fate → Fate
quiet (Fate.refused _) = Fate.fine
quiet (Fate.unheard _) = Fate.fine
quiet f = f

unfoldable pub alert : Env → Alert → Action (Unit {0})
alert env a = modify (λ n. quiet (env.fate n)) (λ s. record s { alerts = a ∷ s.alerts })

-- `BRIDGE_EOA_PRIVATE_KEY not configured`
unfoldable pub require_wallet : Config → Action (Unit {0})
require_wallet config = if config.has_bridge_key then skip else throw Error.transient
