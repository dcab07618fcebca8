-- ===== src/DepositApi.antt =====
-- services/bridge/src/api/deposit.ts and withdrawal.ts: the intent that opens a deposit, and the
-- status of a deposit and of a withdrawal. A call that throws ends in the error handler's 500. The
-- shapes of addresses, ids and hashes are checked on texts that are numbers here, and the rate limit
-- of express-rate-limit stands before the handler.
pub mod Intents
mod Tests
use mathlib.Core.Option
use faircoin_bridge.Effects.{Error, act, pure, query, throw, ◌>>=◌}
use faircoin_bridge.Hd.{DerivedKey, allocate_next_deposit_address}
use faircoin_bridge.Models.Deposit.{Deposit, DepositStatus}
use faircoin_bridge.Models.Withdrawal.{Withdrawal, WithdrawalStatus}
use faircoin_bridge.Prelude.{
  Bool, Option, [], equals, false, if◌then◌else◌, is_none, leb, length, none, some, true, ℕ, ◌&&◌,
  ◌++◌, ◌==◌, ◌∷◌,
}
use faircoin_bridge.Prelude.Collection.{find_all, find_by_id, find_one, next_id}
use faircoin_bridge.Store.{Action, Config, Env, Store}

max_awaiting_per_ip : ℕ
max_awaiting_per_ip = 100

is_awaiting : DepositStatus → Bool
is_awaiting DepositStatus.awaiting = true
is_awaiting _ = false

is_outstanding : ℕ → Deposit → Bool
is_outstanding ip d = equals ip d.client_ip && is_awaiting d.status

-- The deposits that the unique index on `(fairTxid, fairVout)` holds under `(null, null)`: both fields
-- have the default null, and a sparse index leaves out only documents without the fields.
unfoldable pub is_unpaid : Deposit → Bool
is_unpaid d = is_none d.fair_txid && is_none d.fair_vout

new_deposit : ℕ → Option ℕ → DerivedKey → ℕ → Deposit
new_deposit base_address client_ip key now = record {
  base_address = base_address;
  fair_address = key.address;
  hd_index = some key.index;
  status = DepositStatus.awaiting;
  fair_txid = none;
  fair_vout = none;
  fair_block_height = none;
  fair_confirmations = 0;
  amount_sats = 0;
  amount_wei = 0;
  base_mint_tx_hash = none;
  base_mint_block_number = none;
  safe_tx_hash = none;
  client_ip = client_ip;
  created_at = now;
}

insert_if_new : Option (ℕ × Deposit) → Deposit → Store → Option ℕ × Store
insert_if_new (some _) d s = (none, s)
insert_if_new none d s =
    (some (next_id s.deposits), record s { deposits = s.deposits ++ (next_id s.deposits, d) ∷ [] })

-- `Deposit.create` of a deposit that has no payment yet.
insert_deposit : Deposit → Store → Option ℕ × Store
insert_deposit d s = insert_if_new (find_one is_unpaid s.deposits) d s

pub record IntentJson : Type 0 where
  pub id : ℕ
  pub base_address : ℕ
  pub fair_address : ℕ
  pub hd_index : ℕ
  pub status : DepositStatus

pub data IntentResponse : Type 0 where
  too_many_outstanding_awaiting : IntentResponse
  intent_created : IntentJson → IntentResponse

pub record DepositJson : Type 0 where
  pub id : ℕ
  pub base_address : ℕ
  pub fair_address : ℕ
  pub status : DepositStatus
  pub fair_txid : Option ℕ
  pub fair_vout : Option ℕ
  pub fair_block_height : Option ℕ
  pub fair_confirmations : ℕ
  pub amount_sats : ℕ
  pub amount_wei : ℕ
  pub base_mint_tx_hash : Option ℕ
  pub base_mint_block_number : Option ℕ
  pub safe_tx_hash : Option ℕ
  pub created_at : ℕ

-- `sanitizeDeposit`; the model has no `updatedAt`
sanitize_deposit : ℕ → Deposit → DepositJson
sanitize_deposit id d = record {
  id = id;
  base_address = d.base_address;
  fair_address = d.fair_address;
  status = d.status;
  fair_txid = d.fair_txid;
  fair_vout = d.fair_vout;
  fair_block_height = d.fair_block_height;
  fair_confirmations = d.fair_confirmations;
  amount_sats = d.amount_sats;
  amount_wei = d.amount_wei;
  base_mint_tx_hash = d.base_mint_tx_hash;
  base_mint_block_number = d.base_mint_block_number;
  safe_tx_hash = d.safe_tx_hash;
  created_at = d.created_at;
}

pub record WithdrawalJson : Type 0 where
  pub id : ℕ
  pub base_burn_tx_hash : ℕ
  pub base_block_number : ℕ
  pub log_index : ℕ
  pub from_base_address : ℕ
  pub destination_fair_address : ℕ
  pub amount_wei : ℕ
  pub amount_sats : ℕ
  pub status : WithdrawalStatus
  pub fair_txid : Option ℕ
  pub fair_confirmations : ℕ
  pub fair_broadcast_at : Option ℕ
  pub created_at : ℕ

-- `sanitizeWithdrawal`; the model has no `updatedAt`
sanitize_withdrawal : ℕ × Withdrawal → WithdrawalJson
sanitize_withdrawal (id, x) = record {
  id = id;
  base_burn_tx_hash = x.base_burn_tx_hash;
  base_block_number = x.base_block_number;
  log_index = x.log_index;
  from_base_address = x.from_base_address;
  destination_fair_address = x.destination_fair_address;
  amount_wei = x.amount_wei;
  amount_sats = x.amount_sats;
  status = x.status;
  fair_txid = x.fair_txid;
  fair_confirmations = x.fair_confirmations;
  fair_broadcast_at = x.fair_broadcast_at;
  created_at = x.created_at;
}

module _ (config : Config) (env : Env) where
  open env use {fate}

  too_many_outstanding : Option ℕ → Action Bool
  too_many_outstanding none = pure false
  too_many_outstanding (some ip) =
      query fate (λ s. leb max_awaiting_per_ip (length (find_all (is_outstanding ip) s.deposits)))

  respond_created : ℕ → DerivedKey → Option ℕ → Action IntentResponse
  respond_created base_address key none = throw Error.duplicate_key
  respond_created base_address key (some id) = pure (
      intent_created (record {
        id = id;
        base_address = base_address;
        fair_address = key.address;
        hd_index = key.index;
        status = DepositStatus.awaiting;
      }))

  create_deposit : ℕ → Option ℕ → DerivedKey → Action IntentResponse
  create_deposit base_address client_ip key =
      act fate (λ n s. insert_deposit (new_deposit base_address client_ip key (env.now n)) s)
      >>= respond_created base_address key

  unless_too_many : ℕ → Option ℕ → Bool → Action IntentResponse
  unless_too_many base_address client_ip too_many =
      if too_many
      then pure too_many_outstanding_awaiting
      else allocate_next_deposit_address config env >>= create_deposit base_address client_ip

  -- `POST /intent`, from the body's address in lower case and `req.ip`
  pub post_intent : ℕ → Option ℕ → Action IntentResponse
  post_intent base_address client_ip =
      too_many_outstanding client_ip >>= unless_too_many base_address client_ip

  -- `GET /status/:id` of a deposit: `none` is the response 404.
  pub get_deposit_status : ℕ → Action (Option DepositJson)
  get_deposit_status id =
      query fate (λ s. Option.map (λ d. sanitize_deposit id d) (find_by_id id s.deposits))

  has_burn_hash : ℕ → Withdrawal → Bool
  has_burn_hash hash x = x.base_burn_tx_hash == hash

  -- `GET /status/:burnTxHash` of a withdrawal, from the hash in lower case; `none` is the 404.
  pub get_withdrawal_status : ℕ → Action (Option WithdrawalJson)
  get_withdrawal_status hash =
      query fate (λ s. Option.map sanitize_withdrawal (find_one (has_burn_hash hash) s.withdrawals))
