-- ===== src/BaseWatcher/Tests.antt =====
-- The base watcher at concrete inputs: Base has one burn, in block 65, and its tip is 100.
use mathlib.Core.List.{Memᴰ}
use faircoin_bridge.Amounts.{apply_fee}
use faircoin_bridge.BaseWatcher.{
  SeenBurn, accept_burn, add_orphans, add_release_job, base_watcher, counted, counted_status,
  create_withdrawal, created, daily_sats, day_ms, fail_burn, initial_backfill_blocks, insert_unless,
  insert_withdrawal, is_confirmed, is_valid_destination, job_of, max_log_range, new_withdrawal,
  orphan_withdrawal_age_ms, orphaned, over_cap, process_log, process_logs, process_new,
  process_seen, reconcile_orphan_withdrawals, release_burn, released_sats, scan, scan_chain,
  scan_from, scan_window, seen_burn, set_cursor, total_sats, upsert_cursor, window_end,
}
use faircoin_bridge.BaseWatcher.CatchUp.{scan_chain_catches_up}
use faircoin_bridge.BaseWatcher.Cursor.{Covered, Past, base_watcher_covers}
use faircoin_bridge.BaseWatcher.Releases.{Queued, process_log_again, process_log_releases}
use faircoin_bridge.BaseWatcher.Scan.{IsRecorded}
use faircoin_bridge.Decimal.{all}
use faircoin_bridge.Effects.{
  Error, Fate, World, act, ask, catch, done, look, modify, pure, query, skip, throw, ◌>>=◌, ◌>>◌,
}
use faircoin_bridge.Effects.Throws.{IsCaused}
use faircoin_bridge.Models.Chain.{Log}
use faircoin_bridge.Models.Withdrawal.{Withdrawal, WithdrawalStatus}
use faircoin_bridge.Prelude.{
  [], arith, false, if◌then◌else◌, ltb, refl, some, ℕ, ◌-◌, ◌==◌, ◌∷◌, ◌≡◌, ◌≤◌,
}
use faircoin_bridge.Prelude.Collection.{find_all, find_one, next_id}
use faircoin_bridge.Samples.{burn, burn_env, config, empty_store, log}
use faircoin_bridge.Store.{Env, Store, alert, quiet}

abbrev seen : SeenBurn
seen = record { hash = 60; index = 2; block = 65; burn = burn }

-- The third call fails, and the process dies in the sixth.
abbrev faulty_env : Env
faulty_env = record burn_env {
  fate = λ n.
      if n == 2
      then Fate.refused Error.transient
      else (if n == 5 then Fate.dies_before else Fate.fine);
}

abbrev OnBase : Log → Type 0
OnBase l = l ≡ log

world : World Store
world = record { clock = 0; store = record empty_store { base_cursor = some 60 } }

module _ (fate : ℕ → Fate) where
  complete :
      (n from to : ℕ) (l : Log) (b : SeenBurn)
      → OnBase l
      → seen_burn l ≡ some b
      → from ≤ b.block
      → b.block ≤ to
      → Memᴰ l ((record burn_env { fate = fate }).burn_logs n from to)
  complete n from to l b on _ _ _ = Memᴰ.head on

world-Covered :
    (env : Env) (running : (n : ℕ) → env.aborted n ≡ false)
    (all : (n from to : ℕ) (l : Log) (b : SeenBurn)
      → OnBase l
      → seen_burn l ≡ some b
      → from ≤ b.block
      → b.block ≤ to
      → Memᴰ l (env.burn_logs n from to))
    → Covered config env OnBase 60 running all world.store
unfolding world
world-Covered env running all = (60, ((λ b (l, on, seen, after, upto). absurd (omega arith)), refl))

base_watcher_covers_example :
    Covered config faulty_env OnBase 60
      (λ _. refl)
      (complete faulty_env.fate)
      (base_watcher config faulty_env 2 world).1.store
base_watcher_covers_example =
    base_watcher_covers config faulty_env OnBase 60 (λ _. refl) (complete faulty_env.fate) 2 world
      (world-Covered faulty_env (λ _. refl) (complete faulty_env.fate))

scan_chain_catches_up_example :
    ((scan_chain config burn_env world).0 ≡ done tt)
    × ((n k : ℕ) × (burn_env.base_tip n - config.base_confirmations ≤ k)
        × ((scan_chain config burn_env world).1.store.base_cursor ≡ some k)
        × ((b : SeenBurn)
            → Past config burn_env OnBase 60 (λ _. refl) (complete burn_env.fate) k b
            → IsRecorded b (scan_chain config burn_env world).1.store))
scan_chain_catches_up_example =
    scan_chain_catches_up config burn_env (λ _. refl) (λ _. refl) OnBase 60 (complete burn_env.fate)
      world (world-Covered burn_env (λ _. refl) (complete burn_env.fate))

process_log_releases_example :
    Queued config burn_env [] (seen_burn log) (process_log config burn_env log world).1.store
unfolding world
process_log_releases_example = process_log_releases config burn_env log world

abbrev withdrawal : Withdrawal
withdrawal = new_withdrawal seen 6 400_000_000_000 40 WithdrawalStatus.confirmed

abbrev recorded_world : World Store
recorded_world = record {
  clock = 0;
  store = record empty_store { withdrawals = (3, withdrawal) ∷ [] };
}

process_log_again_example :
    ((process_log config faulty_env log recorded_world).1.store ≡ recorded_world.store)
    × IsCaused faulty_env.fate (process_log config faulty_env log recorded_world).0
unfolding seen_burn find_one
process_log_again_example = process_log_again config faulty_env log seen recorded_world refl refl

-- What one line of a test names to let the watcher run.
runs : Unit {0}
unfolding world scan_chain reconcile_orphan_withdrawals add_orphans orphaned is_confirmed
    upsert_cursor scan_from scan scan_window window_end process_logs process_log seen_burn
    process_seen process_new is_valid_destination accept_burn over_cap daily_sats total_sats counted
    counted_status day_ms fail_burn release_burn released_sats apply_fee create_withdrawal created
    insert_withdrawal insert_unless next_id add_release_job job_of set_cursor find_one find_all
    alert quiet query ask modify act look skip pure throw catch ◌>>=◌ ◌>>◌ base_watcher
    max_log_range initial_backfill_blocks orphan_withdrawal_age_ms
runs = tt

-- A burn of 40 sats gives one job, of 39 sats after the fee of 30 basis points.
burn_is_released :
    (scan_chain config burn_env world).1.store.release_jobs
    ≡ record {
      withdrawal_id = 0;
      destination_fair_address = 6;
      amount_sats = 39;
      base_burn_tx_hash = 60;
      log_index = 2;
    }
      ∷ []
unfolding runs
burn_is_released = refl

-- The signal is aborted while `getLogs` runs: no log of the window is processed, and the cursor
-- moves over the window nevertheless.
abbrev aborted_env : Env
aborted_env = record burn_env { aborted = λ n. ltb 3 n }

abort_loses_burn :
    ((scan_chain config aborted_env world).1.store.base_cursor ≡ some 70)
    × ((scan_chain config aborted_env world).1.store.withdrawals ≡ [])
unfolding runs
abort_loses_burn = (refl, refl)
