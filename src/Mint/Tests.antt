-- ===== src/Mint/Tests.antt =====
-- The mint signer at concrete inputs.
use faircoin_bridge.Effects.{
  Fate, World, act, ask, done, modify, pure, query, skip, throw, ◌>>=◌, ◌>>◌,
}
use faircoin_bridge.Effects.Retries.{attempts, lost, unrecorded}
use faircoin_bridge.Mint.{
  broadcast_direct_eoa, broadcast_or_reconcile, claim_effect, claim_mint, claim_or_reload,
  claimable, claimable_status, fair_txid_to_bytes32, finalize_direct_eoa, load_deposit, mint_of,
  mint_on_file, or_reload, run, send_mint, set_deposit, set_failed, set_mint_hash, set_minted,
  set_minting, settle, sign_and_audit, sign_by_mode, sign_by_status, sign_claimed, sign_direct_eoa,
  sign_if_minting, sign_loaded, sign_mint, sign_open,
}
use faircoin_bridge.Mint.Attempts.{attempts-mints}
use faircoin_bridge.Mint.Claims.{claim_again}
use faircoin_bridge.Mint.Final.{is_final, sign_mint_final}
use faircoin_bridge.Mint.Proposals.{attempts-proposals}
use faircoin_bridge.Mint.Recorded.{OnFile, sign_mint_once_recorded}
use faircoin_bridge.Mint.Success.{IsMinted, sign_mint_mints}
use faircoin_bridge.Models.Deposit.{Deposit, DepositStatus}
use faircoin_bridge.Prelude.{
  [], if◌then◌else◌, inr, length, none, refl, some, ◌+◌, ◌==◌, ◌∷◌, ◌≡◌, ◌≤◌,
}
use faircoin_bridge.Prelude.Collection.{claim_by_id, find_by_id, update_by_id}
use faircoin_bridge.Samples.{calm_env, config, empty_store}
use faircoin_bridge.Store.{Config, Env, MintJob, MintMode, Store, alert, quiet, require_wallet}

abbrev safe_config : Config
safe_config = record config { mint_auth_mode = MintMode.safe_proposal }

-- The process is killed right after the mint was sent, before its hash is on file.
abbrev killed_env : Env
killed_env = record calm_env { fate = λ n. if n == 2 then Fate.dies_after else Fate.fine }

abbrev deposit : Deposit
deposit = record {
  base_address = 5;
  fair_address = 6;
  hd_index = some 0;
  status = DepositStatus.confirmed;
  fair_txid = some 9;
  fair_vout = some 0;
  fair_block_height = some 50;
  fair_confirmations = 6;
  amount_sats = 40;
  amount_wei = 390;
  base_mint_tx_hash = none;
  base_mint_block_number = none;
  safe_tx_hash = none;
  client_ip = none;
  created_at = 0;
}

abbrev job : MintJob
job = record { deposit_id = 3; base_address = 5; amount_wei = 390; fair_txid = 9; fair_vout = 0 }

abbrev world_of : Deposit → World Store
world_of d = record { clock = 0; store = record empty_store { deposits = (3, d) ∷ [] } }

abbrev world : World Store
world = world_of deposit

abbrev recorded_world : World Store
recorded_world =
    world_of (record deposit { status = DepositStatus.minting; base_mint_tx_hash = some 44 })

recorded_world-OnFile : OnFile 3 44 [] recorded_world.store
unfolding find_by_id
recorded_world-OnFile = record { recorded = refl; unsent = refl }

sign_mint_once_recorded_example :
    OnFile 3 44 [] (sign_mint config killed_env job recorded_world).1.store
sign_mint_once_recorded_example =
    sign_mint_once_recorded config killed_env job 44 [] refl recorded_world recorded_world-OnFile

attempts-mints_example :
    length (attempts (run config killed_env job) 2 world).store.mints
    ≤ length world.store.mints
      + 1
      + unrecorded (run config killed_env job) (λ s. s.mints) (mint_on_file job) 2 world
attempts-mints_example = attempts-mints config killed_env job refl 2 world

attempts-proposals_example :
    length (attempts (run safe_config killed_env job) 2 world).store.proposals
    ≤ length world.store.proposals + 1
attempts-proposals_example = attempts-proposals safe_config killed_env job refl 2 world

abbrev failed_deposit : Deposit
failed_deposit = record deposit { status = DepositStatus.failed }

sign_mint_final_example :
    find_by_id 3 (sign_mint config killed_env job (world_of failed_deposit)).1.store.deposits
    ≡ some failed_deposit
unfolding find_by_id is_final
sign_mint_final_example =
    sign_mint_final config killed_env job 3 failed_deposit (world_of failed_deposit) refl (inr refl)

claim_again_example : (claim_effect 3 (claim_effect 3 world.store).1).0 ≡ some (set_minting deposit)
unfolding claim_effect claim_by_id find_by_id claimable claimable_status set_minting
claim_again_example = claim_again 3 world.store refl

sign_mint_mints_example :
    ((sign_mint config calm_env job world).0 ≡ done tt)
    × IsMinted job deposit [] (sign_mint config calm_env job world).1.store
unfolding find_by_id claimable_status
sign_mint_mints_example =
    sign_mint_mints config calm_env job deposit [] (λ _. refl) (λ _ _. refl) refl refl refl refl
      refl refl world refl refl

-- What one line of test names to let the signer run.
runs : Unit {0}
unfolding sign_mint load_deposit sign_loaded sign_by_status sign_open claim_or_reload or_reload
    claim_mint claim_effect claimable claimable_status set_minting claim_by_id find_by_id
    update_by_id sign_claimed sign_if_minting sign_and_audit sign_by_mode sign_direct_eoa
    broadcast_or_reconcile broadcast_direct_eoa require_wallet fair_txid_to_bytes32 send_mint
    set_deposit set_mint_hash finalize_direct_eoa settle set_minted set_failed alert quiet query ask
    modify act skip pure throw ◌>>=◌ ◌>>◌ attempts run unrecorded lost mint_of mint_on_file
runs = tt

-- A kill between the broadcast and the write of the hash makes the retry mint a second time.
killed_run_mints_twice :
    (length (attempts (run config killed_env job) 2 world).store.mints ≡ 2)
    × (unrecorded (run config killed_env job) (λ s. s.mints) (mint_on_file job) 2 world ≡ 1)
unfolding runs
killed_run_mints_twice = (refl, refl)

calm_run_mints_once : length (attempts (run config calm_env job) 3 world).store.mints ≡ 1
unfolding runs
calm_run_mints_once = refl
