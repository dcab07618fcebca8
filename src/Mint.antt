-- ===== src/Mint.antt =====
-- services/bridge/src/signer/base.ts: the mint signer, and the mint job of
-- services/bridge/src/workers/orchestrator.ts that runs it. A document read with `findById` is the
-- state at that moment; what later calls change in the database, it does not see.
pub mod Recorded
pub mod Attempts
pub mod Proposals
pub mod Claims
pub mod Success
pub mod Final
mod Tests
use faircoin_bridge.Effects.{
  Error, World, act, ask, catch, modify, pure, query, skip, throw, ◌>>=◌, ◌>>◌,
}
use faircoin_bridge.Models.Deposit.{Deposit, DepositStatus}
use faircoin_bridge.Prelude.{
  Bool, Option, false, if◌then◌else◌, is_none, none, some, true, ℕ, ◌&&◌, ◌∷◌,
}
use faircoin_bridge.Prelude.Collection.{claim_by_id, find_by_id, update_by_id}
use faircoin_bridge.Store.{
  Action, Alert, Audit, Config, Env, Mint, MintJob, MintMode, Receipt, Store, alert, require_wallet,
}

set_deposit : ℕ → (Deposit → Deposit) → Store → Store
set_deposit id f s = record s { deposits = update_by_id id f s.deposits }

-- The filter of `claimMint`, without the key.
pub claimable_status : DepositStatus → Bool
claimable_status DepositStatus.confirmed = true
claimable_status DepositStatus.minting = true
claimable_status _ = false

claimable : Deposit → Bool
claimable d = claimable_status d.status && is_none d.base_mint_tx_hash && is_none d.safe_tx_hash

pub set_minting : Deposit → Deposit
set_minting d = record d { status = DepositStatus.minting }

pub claim_effect : ℕ → Store → Option Deposit × Store
claim_effect id s =
    let (found, c) = claim_by_id id claimable set_minting s.deposits in
    (found, record s { deposits = c })

pub mint_of : MintJob → Mint
mint_of job = record {
  to = job.base_address;
  amount = job.amount_wei;
  faircoin_txid = job.fair_txid;
  vout = job.fair_vout;
}

set_failed : Deposit → Deposit
set_failed d = record d { status = DepositStatus.failed }

pub set_minted : ℕ → Deposit → Deposit
set_minted block d = record d { status = DepositStatus.minted; base_mint_block_number = some block }

pub set_mint_hash : ℕ → Deposit → Deposit
set_mint_hash h d = record d { base_mint_tx_hash = some h }

set_safe_hash : ℕ → Deposit → Deposit
set_safe_hash h d = record d { safe_tx_hash = some h }

module _ (config : Config) (env : Env) where
  open env use {fate}

  load_deposit : ℕ → Action (Option Deposit)
  load_deposit id = query fate (λ s. find_by_id id s.deposits)

  -- `fairTxidToBytes32`
  fair_txid_to_bytes32 : ℕ → Action (Unit {0})
  fair_txid_to_bytes32 txid = if env.is_bytes32 txid then skip else throw Error.transient

  -- `claimMint`
  pub claim_mint : ℕ → Action (Option Deposit)
  claim_mint id = act fate (λ _ s. claim_effect id s)

  send_mint : MintJob → Action ℕ
  send_mint job = act fate (λ n s. (env.hash n, record s { mints = mint_of job ∷ s.mints }))

  -- `broadcastDirectEoa`
  broadcast_direct_eoa : MintJob → Action ℕ
  broadcast_direct_eoa job = do
    require_wallet config
    fair_txid_to_bytes32 job.fair_txid
    send_mint job

  settle : ℕ → Receipt → Action (Unit {0})
  settle id r = if r.success then modify fate (set_deposit id (set_minted r.block_number)) else do
    modify fate (set_deposit id set_failed)
    alert env (Alert.mint_reverted id)
    throw Error.reverted

  -- `finalizeDirectEoa`
  finalize_direct_eoa : ℕ → ℕ → Action (Unit {0})
  finalize_direct_eoa id tx_hash = do r ← ask fate (λ n. env.receipt n tx_hash); settle id r

  broadcast_or_reconcile : MintJob → Option ℕ → Action ℕ
  broadcast_or_reconcile job (some existing) = do
    finalize_direct_eoa job.deposit_id existing
    pure existing
  broadcast_or_reconcile job none = do
    tx_hash ← broadcast_direct_eoa job
    modify fate (set_deposit job.deposit_id (set_mint_hash tx_hash))
    finalize_direct_eoa job.deposit_id tx_hash
    pure tx_hash

  -- `signDirectEoa`
  sign_direct_eoa : MintJob → Deposit → Action ℕ
  sign_direct_eoa job d = broadcast_or_reconcile job d.base_mint_tx_hash

  -- `safeProposalExists`: any failure counts as "not found".
  safe_proposal_exists : ℕ → Action Bool
  safe_proposal_exists h = catch (ask fate (λ n. env.safe_known n h)) (λ _. pure false)

  reconcile_proposal : MintJob → ℕ → Bool → Action ℕ
  reconcile_proposal job existing known =
      if known
      then pure existing
      else do alert env (Alert.proposal_missing job.deposit_id); throw Error.transient

  propose_transaction : MintJob → Action (Unit {0})
  propose_transaction job = modify fate (λ s. record s { proposals = mint_of job ∷ s.proposals })

  -- `signTransaction` and the look-up of our own signature
  sign_transaction : Action (Unit {0})
  sign_transaction = do
    signed ← ask fate env.has_signature
    if signed then skip else throw Error.transient

  propose_or_reconcile : MintJob → Option ℕ → Action ℕ
  propose_or_reconcile job (some existing) = do
    known ← safe_proposal_exists existing
    reconcile_proposal job existing known
  propose_or_reconcile job none = do
    fair_txid_to_bytes32 job.fair_txid
    safe_tx_hash ← ask fate env.hash
    modify fate (set_deposit job.deposit_id (set_safe_hash safe_tx_hash))
    sign_transaction
    propose_transaction job
    alert env (Alert.proposal_ready job.deposit_id)
    pure safe_tx_hash

  -- `signSafeProposal`; `buildSafeContext` is its first two steps.
  sign_safe_proposal : MintJob → Deposit → Action ℕ
  sign_safe_proposal job d = do
    require_wallet config
    ask fate (λ _. tt)
    propose_or_reconcile job d.safe_tx_hash

  sign_by_mode : MintMode → MintJob → Deposit → Action ℕ
  sign_by_mode MintMode.safe_proposal job d = sign_safe_proposal job d
  sign_by_mode MintMode.direct_eoa job d = sign_direct_eoa job d

  sign_and_audit : MintJob → Deposit → Action (Unit {0})
  sign_and_audit job d = do
    tx_hash ← sign_by_mode config.mint_auth_mode job d
    modify fate
        (λ s. record s { audit_log = Audit.sign_mint_entry job.deposit_id tx_hash ∷ s.audit_log })

  -- The status check after the claim.
  sign_if_minting : DepositStatus → MintJob → Deposit → Action (Unit {0})
  sign_if_minting DepositStatus.minting job d = sign_and_audit job d
  sign_if_minting _ job d = skip

  sign_claimed : MintJob → Option Deposit → Action (Unit {0})
  sign_claimed job none = skip
  sign_claimed job (some d) = sign_if_minting d.status job d

  or_reload : ℕ → Option Deposit → Action (Option Deposit)
  or_reload id none = load_deposit id
  or_reload id (some d) = pure (some d)

  -- The claim, or the document as it is when a hash is on file; `none` if it has disappeared.
  claim_or_reload : ℕ → Deposit → Action (Option Deposit)
  claim_or_reload id d =
      if is_none d.base_mint_tx_hash && is_none d.safe_tx_hash
      then claim_mint id >>= or_reload id
      else pure (some d)

  sign_open : MintJob → Deposit → Action (Unit {0})
  sign_open job d = do deposit ← claim_or_reload job.deposit_id d; sign_claimed job deposit

  sign_by_status : DepositStatus → MintJob → Deposit → Action (Unit {0})
  sign_by_status DepositStatus.minted job d = skip
  sign_by_status DepositStatus.failed job d = throw Error.non_retryable
  sign_by_status _ job d = sign_open job d

  sign_loaded : MintJob → Option Deposit → Action (Unit {0})
  sign_loaded job none = skip
  sign_loaded job (some d) = sign_by_status d.status job d

  -- `signMint`
  pub sign_mint : MintJob → Action (Unit {0})
  sign_mint job = do initial ← load_deposit job.deposit_id; sign_loaded job initial

  report_mint : MintJob → Error → Action (Unit {0})
  report_mint job Error.non_retryable = do
    alert env (Alert.mint_job_failed job.deposit_id)
    throw Error.non_retryable
  report_mint job e = throw e

  -- `mintProcessor`
  pub mint_processor : MintJob → Action (Unit {0})
  mint_processor job = catch (sign_mint job) (report_mint job)

-- The hash on file for a deposit.
abbrev pub mint_hash_of : Option Deposit → Option ℕ
mint_hash_of none = none
mint_hash_of (some d) = d.base_mint_tx_hash

abbrev pub safe_hash_of : Option Deposit → Option ℕ
safe_hash_of none = none
safe_hash_of (some d) = d.safe_tx_hash

-- The hash on file for the deposit of a job.
pub mint_on_file : MintJob → Store → Option ℕ
mint_on_file job s = mint_hash_of (find_by_id job.deposit_id s.deposits)

module _ (config : Config) (env : Env) (job : MintJob) where
  -- One run of the job, however it ends.
  pub run : World Store → World Store
  run w = (sign_mint config env job w).1
