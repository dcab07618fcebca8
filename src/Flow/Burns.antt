-- ===== src/Flow/Burns.antt =====
-- A burn on its way through the base watcher and the release signer
-- (services/bridge/src/workers/base-watcher.ts and signer/fair.ts).
use faircoin_bridge.Amounts.{sats_to_wei}
use faircoin_bridge.BaseWatcher.{SeenBurn}
use faircoin_bridge.Effects.{World}
use faircoin_bridge.Effects.Retries.{attempts, unrecorded}
use faircoin_bridge.Prelude.{ℕ, ◌*◌, ◌+◌, ◌≤◌}
use faircoin_bridge.Release.{release_on_file, run}
use faircoin_bridge.Release.Attempts.{paid_sats}
use faircoin_bridge.Store.{Config, Env, ReleaseJob, Store}

module _ (config : Config) (env : Env) where
  -- What `n` runs of a release job may have paid for a burn: once what was burned, and once more for
  -- each run that asked for a payment and left no txid on file.
  abbrev pub burn_bound : SeenBurn → ReleaseJob → ℕ → World Store → ℕ
  burn_bound b job n w =
      (1 + unrecorded (run config env job) (λ s. s.sends) (release_on_file job) n w) * b.burn.amount

  abbrev pub IsBacked : SeenBurn → ReleaseJob → ℕ → World Store → Type 0
  IsBacked b job n w =
      paid_sats (attempts (run config env job) n w).store.sends * sats_to_wei
      ≤ paid_sats w.store.sends * sats_to_wei + burn_bound b job n w
