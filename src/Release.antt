-- ===== src/Release.antt =====
-- services/bridge/src/signer/fair.ts: the release signer, which pays a withdrawal out of faircoind's
-- wallet, and the release job of services/bridge/src/workers/orchestrator.ts that runs it.
pub mod Recorded
pub mod Attempts
pub mod Final
pub mod Rounding
pub mod Payment
pub mod Claims
pub mod Refusal
mod Tests
use faircoin_bridge.BuyApi.Created.{sats}
use faircoin_bridge.Doubles.{add, divide, number}
use faircoin_bridge.Effects.{
  Error, World, act, ask, catch, modify, pure, query, skip, throw, ◌>>=◌, ◌>>◌,
}
use faircoin_bridge.Models.BuyOrder.{BuyOrder, BuyOrderStatus}
use faircoin_bridge.Models.Withdrawal.{Withdrawal, WithdrawalStatus}
use faircoin_bridge.Prelude.{
  Bool, Option, equals, false, if◌then◌else◌, is_none, none, some, true, ℕ, ◌%◌, ◌&&◌, ◌/◌, ◌∷◌,
}
use faircoin_bridge.Prelude.Collection.{claim_by_id, find_by_id, update_by_id, update_first}
use faircoin_bridge.Store.{
  Action, Alert, Audit, Config, Env, Fair, HotWalletMode, ReleaseJob, Store, alert,
}

abbrev pub sats_per_fair : ℕ
sats_per_fair = 100_000_000

-- `satsToFair`
unfoldable pub sats_to_fair : ℕ → Fair
sats_to_fair sats = record {
  sats = sats;
  double =
      add (number (sats / sats_per_fair))
        (divide (number (sats % sats_per_fair)) (number sats_per_fair));
}

pub set_withdrawal : ℕ → (Withdrawal → Withdrawal) → Store → Store
set_withdrawal id f s = record s { withdrawals = update_by_id id f s.withdrawals }

-- The filter of `claimRelease`, without the key.
pub releasable_status : WithdrawalStatus → Bool
releasable_status WithdrawalStatus.confirmed = true
releasable_status WithdrawalStatus.signing = true
releasable_status _ = false

releasable : Withdrawal → Bool
releasable d = releasable_status d.status && is_none d.fair_txid

pub set_signing : Withdrawal → Withdrawal
set_signing d = record d { status = WithdrawalStatus.signing }

pub claim_release_effect : ℕ → Store → Option Withdrawal × Store
claim_release_effect id s =
    let (found, c) = claim_by_id id releasable set_signing s.withdrawals in
    (found, record s { withdrawals = c })

pub set_failed : Withdrawal → Withdrawal
set_failed d = record d { status = WithdrawalStatus.failed }

or_now : Option ℕ → ℕ → ℕ
or_now none now = now
or_now (some at) _ = at

pub set_broadcast : Withdrawal → Withdrawal
set_broadcast d = record d { status = WithdrawalStatus.broadcast }

set_reconciled : ℕ → Withdrawal → Withdrawal
set_reconciled now d = record d {
  status = WithdrawalStatus.broadcast;
  fair_broadcast_at = some (or_now d.fair_broadcast_at now);
}

pub set_txid : ℕ → ℕ → Withdrawal → Withdrawal
set_txid txid now d = record d { fair_txid = some txid; fair_broadcast_at = some now }

-- The filter of `linkReleaseToBuyOrder`.
awaits_delivery : BuyOrderStatus → Bool
awaits_delivery BuyOrderStatus.burning = true
awaits_delivery BuyOrderStatus.delivering = true
awaits_delivery _ = false

burned_by : ℕ → BuyOrder → Bool
burned_by hash o = equals hash o.burn_tx_hash && awaits_delivery o.status

set_delivered : ℕ → BuyOrder → BuyOrder
set_delivered txid o = record o {
  status = BuyOrderStatus.delivered;
  release_fair_tx_id = some txid;
}

module _ (config : Config) (env : Env) where
  open env use {fate}

  load_withdrawal : ℕ → Action (Option Withdrawal)
  load_withdrawal id = query fate (λ s. find_by_id id s.withdrawals)

  claim_release : ℕ → Action (Option Withdrawal)
  claim_release id = act fate (λ _ s. claim_release_effect id s)

  -- faircoind's `getrawtransaction`
  get_raw_transaction : ℕ → Action (Unit {0})
  get_raw_transaction txid = do
    known ← ask fate (λ n. env.tx_known n txid)
    if known then skip else throw Error.no_such_tx

  not_found : Error → Action Bool
  not_found Error.no_such_tx = pure false
  not_found e = throw e

  fair_tx_exists : ℕ → Action Bool
  fair_tx_exists txid = catch (get_raw_transaction txid >> pure true) not_found

  -- `sendtoaddress`
  send_to_address : ℕ → Fair → Action ℕ
  send_to_address address amount = act fate (λ n s.
      (env.hash n, record s { sends = record { address = address; amount = amount } ∷ s.sends }))

  reconcile_release : ℕ → ℕ → Bool → Action ℕ
  reconcile_release id txid true = do
    act fate (λ n s. (tt, set_withdrawal id (set_reconciled (env.now n)) s))
    pure txid
  reconcile_release id txid false = do alert env (Alert.release_missing id); throw Error.transient

  sign_node_wallet_by : ReleaseJob → Option ℕ → Action ℕ
  sign_node_wallet_by job (some txid) = do
    known ← fair_tx_exists txid
    reconcile_release job.withdrawal_id txid known
  sign_node_wallet_by job none = do
    txid ← send_to_address job.destination_fair_address (sats_to_fair job.amount_sats)
    act fate (λ n s. (tt, set_withdrawal job.withdrawal_id (set_txid txid (env.now n)) s))
    modify fate (set_withdrawal job.withdrawal_id set_broadcast)
    pure txid

  -- `signNodeWallet`
  sign_node_wallet : ReleaseJob → Withdrawal → Action ℕ
  sign_node_wallet job d = sign_node_wallet_by job d.fair_txid

  link_release_to_buy_order : ℕ → ℕ → Action (Unit {0})
  link_release_to_buy_order hash txid =
      modify fate
        (λ s. record s { orders = update_first (burned_by hash) (set_delivered txid) s.orders })

  sign_and_link : ReleaseJob → Withdrawal → Action (Unit {0})
  sign_and_link job d = do
    txid ← sign_node_wallet job d
    modify fate (λ s. record s {
      audit_log = Audit.sign_release_entry job.withdrawal_id txid ∷ s.audit_log;
    })
    catch (link_release_to_buy_order job.base_burn_tx_hash txid) (λ _. skip)

  release_if_signing : WithdrawalStatus → ReleaseJob → Withdrawal → Action (Unit {0})
  release_if_signing WithdrawalStatus.signing job d = sign_and_link job d
  release_if_signing _ job d = skip

  release_claimed : ReleaseJob → Option Withdrawal → Action (Unit {0})
  release_claimed job none = skip
  release_claimed job (some d) = release_if_signing d.status job d

  or_reload : ℕ → Option Withdrawal → Action (Option Withdrawal)
  or_reload id none = load_withdrawal id
  or_reload id (some d) = pure (some d)

  claim_or_reload : ℕ → Withdrawal → Action (Option Withdrawal)
  claim_or_reload id d =
      if is_none d.fair_txid then claim_release id >>= or_reload id else pure (some d)

  refuse_address : ReleaseJob → Action (Unit {0})
  refuse_address job = do
    modify fate (set_withdrawal job.withdrawal_id set_failed)
    throw Error.non_retryable

  -- The address is looked at only where nothing has been sent.
  validate_destination : ReleaseJob → Withdrawal → Action (Unit {0})
  validate_destination job d =
      if is_none d.fair_txid
      then ask fate (λ n. env.is_valid_address n job.destination_fair_address)
        >>= (λ valid. if valid then skip else refuse_address job)
      else skip

  require_node_wallet : HotWalletMode → Action (Unit {0})
  require_node_wallet HotWalletMode.node_wallet = skip
  require_node_wallet HotWalletMode.local_hd = throw Error.non_retryable

  release_open : ReleaseJob → Withdrawal → Action (Unit {0})
  release_open job d = do
    require_node_wallet config.fair_hot_wallet_mode
    validate_destination job d
    withdrawal ← claim_or_reload job.withdrawal_id d
    release_claimed job withdrawal

  release_by_status : WithdrawalStatus → ReleaseJob → Withdrawal → Action (Unit {0})
  release_by_status WithdrawalStatus.final job d = skip
  release_by_status WithdrawalStatus.broadcast job d = skip
  release_by_status WithdrawalStatus.failed job d = throw Error.non_retryable
  release_by_status _ job d = release_open job d

  release_loaded : ReleaseJob → Option Withdrawal → Action (Unit {0})
  release_loaded job none = skip
  release_loaded job (some d) = release_by_status d.status job d

  -- `signRelease`
  pub sign_release : ReleaseJob → Action (Unit {0})
  sign_release job = do initial ← load_withdrawal job.withdrawal_id; release_loaded job initial

  report_release : ReleaseJob → Error → Action (Unit {0})
  report_release job Error.non_retryable = do
    alert env (Alert.release_job_failed job.withdrawal_id)
    throw Error.non_retryable
  report_release job e = throw e

  -- `releaseProcessor`
  pub release_processor : ReleaseJob → Action (Unit {0})
  release_processor job = catch (sign_release job) (report_release job)

abbrev pub txid_of : Option Withdrawal → Option ℕ
txid_of none = none
txid_of (some d) = d.fair_txid

-- The txid on file for the withdrawal of a job.
pub release_on_file : ReleaseJob → Store → Option ℕ
release_on_file job s = txid_of (find_by_id job.withdrawal_id s.withdrawals)

module _ (config : Config) (env : Env) (job : ReleaseJob) where
  -- One run of the job, however it ends.
  pub run : World Store → World Store
  run w = (sign_release config env job w).1
