-- ===== src/Release/Tests.antt =====
-- The release signer at concrete inputs.
use faircoin_bridge.Doubles.{add, divide, exponent, nearest_even, number, round, unit}
use faircoin_bridge.Effects.{Fate, World, done}
use faircoin_bridge.Effects.Retries.{attempts, unrecorded}
use faircoin_bridge.Models.Withdrawal.{Withdrawal, WithdrawalStatus}
use faircoin_bridge.Prelude.{
  [], arith, false, if◌then◌else◌, inr, length, none, refl, some, ◌*◌, ◌+◌, ◌==◌, ◌∷◌, ◌≡◌, ◌≢◌,
  ◌≤◌, ◌⊎◌,
}
use faircoin_bridge.Prelude.Collection.{claim_by_id, find_by_id}
use faircoin_bridge.Release.{
  claim_release_effect, releasable, releasable_status, release_on_file, run, sats_to_fair,
  set_signing, sign_release,
}
use faircoin_bridge.Release.Attempts.{attempts-sends, sign_release_pays_job}
use faircoin_bridge.Release.Claims.{claim_release_again}
use faircoin_bridge.Release.Final.{is_settled, sign_release_final}
use faircoin_bridge.Release.Payment.{IsNear, IsPaid, sign_release_pays}
use faircoin_bridge.Release.Recorded.{OnFile, sign_release_once_recorded}
use faircoin_bridge.Release.Refusal.{IsRefused, sign_release_refuses}
use faircoin_bridge.Release.Rounding.{nearest_sats}
use faircoin_bridge.Samples.{calm_env, config, empty_store}
use faircoin_bridge.Store.{Env, ReleaseJob, Send, Store}

abbrev killed_env : Env
killed_env = record calm_env { fate = λ n. if n == 3 then Fate.dies_after else Fate.fine }

abbrev withdrawal : Withdrawal
withdrawal = record {
  base_burn_tx_hash = 60;
  base_block_number = 100;
  log_index = 2;
  from_base_address = 5;
  destination_fair_address = 6;
  amount_wei = 30;
  amount_sats = 40;
  status = WithdrawalStatus.confirmed;
  fair_txid = none;
  fair_confirmations = 0;
  fair_broadcast_at = none;
  created_at = 0;
}

abbrev job : ReleaseJob
job = record {
  withdrawal_id = 3;
  destination_fair_address = 6;
  amount_sats = 40;
  base_burn_tx_hash = 60;
  log_index = 2;
}

abbrev world_of : Withdrawal → World Store
world_of d = record { clock = 0; store = record empty_store { withdrawals = (3, d) ∷ [] } }

abbrev world : World Store
world = world_of withdrawal

abbrev recorded_world : World Store
recorded_world =
    world_of (record withdrawal { status = WithdrawalStatus.signing; fair_txid = some 44 })

recorded_world-OnFile : OnFile 3 44 [] recorded_world.store
unfolding find_by_id
recorded_world-OnFile = record { recorded = refl; unsent = refl }

sign_release_once_recorded_example :
    OnFile 3 44 [] (sign_release config killed_env job recorded_world).1.store
sign_release_once_recorded_example =
    sign_release_once_recorded config killed_env job 44 [] recorded_world recorded_world-OnFile

attempts-sends_example :
    length (attempts (run config killed_env job) 2 world).store.sends
    ≤ length world.store.sends
      + 1
      + unrecorded (run config killed_env job) (λ s. s.sends) (release_on_file job) 2 world
attempts-sends_example = attempts-sends config killed_env job 2 world

sign_release_pays_job_example :
    ((sign_release config killed_env job world).1.store.sends ≡ [])
    ⊎ ((x : Send) × ((sign_release config killed_env job world).1.store.sends ≡ x ∷ [])
        × (x.address ≡ job.destination_fair_address)
        × (nearest_sats x.amount.double ≡ job.amount_sats))
sign_release_pays_job_example = sign_release_pays_job config killed_env job (omega arith) world

sign_release_pays_example :
    ((sign_release config calm_env job world).0 ≡ done tt)
    × IsPaid job withdrawal [] (sign_release config calm_env job world).1.store
    × IsNear job
unfolding find_by_id releasable_status
sign_release_pays_example =
    sign_release_pays config calm_env job withdrawal [] (λ _. refl) (λ _. refl) refl refl refl
      (omega arith) world refl refl

-- The double for these sats is not the one that is nearest to the decimal 16.63736529: it is that
-- of 16.637365289999998.
rounds_twice :
    ((sats_to_fair 1_663_736_529).double ≢ round (1_663_736_529 * unit) 100_000_000)
    × ((sats_to_fair 1_663_736_529).double
        ≡ round (16_637_365_289_999_998 * unit) 1_000_000_000_000_000)
unfolding sats_to_fair add number divide round exponent nearest_even
rounds_twice = ((λ e. omega (arith, e)), refl)

claim_release_again_example :
    (claim_release_effect 3 (claim_release_effect 3 world.store).1).0
    ≡ some (set_signing withdrawal)
unfolding claim_release_effect claim_by_id find_by_id releasable releasable_status set_signing
claim_release_again_example = claim_release_again 3 world.store refl

abbrev failed_withdrawal : Withdrawal
failed_withdrawal = record withdrawal { status = WithdrawalStatus.failed }

sign_release_final_example :
    find_by_id 3
      (sign_release config killed_env job (world_of failed_withdrawal)).1.store.withdrawals
    ≡ some failed_withdrawal
unfolding find_by_id is_settled
sign_release_final_example =
    sign_release_final config killed_env job 3 failed_withdrawal (world_of failed_withdrawal) refl
      (inr refl)

abbrev invalid_env : Env
invalid_env = record calm_env { is_valid_address = λ _ _. false }

sign_release_refuses_example :
    ((sign_release config invalid_env job world).0 ≢ done tt)
    × IsRefused job withdrawal [] (sign_release config invalid_env job world).1.store
unfolding find_by_id releasable_status
sign_release_refuses_example =
    sign_release_refuses config invalid_env job withdrawal [] (λ _. refl) (λ _. refl) refl refl refl
      world (refl, refl)
