-- ===== src/Flow/Payments.antt =====
-- A payment on its way through the FairCoin watcher and the mint signer
-- (services/bridge/src/workers/fair-watcher.ts and signer/base.ts).
use faircoin_bridge.Amounts.{sats_to_wei}
use faircoin_bridge.Effects.{World}
use faircoin_bridge.Effects.Retries.{attempts, unrecorded}
use faircoin_bridge.FairWatcher.{Payment, process_payment}
use faircoin_bridge.FairWatcher.Mints.{process_payment_mints}
use faircoin_bridge.Mint.{mint_on_file, run}
use faircoin_bridge.Mint.Attempts.{attempts-minted, minted_wei}
use faircoin_bridge.Prelude.{arith, inl, inr, mul_le, ℕ, ◌*◌, ◌+◌, ◌∷◌, ◌≡◌, ◌≤◌, ◌⊎◌}
use faircoin_bridge.Store.{Config, Env, MintJob, MintMode, Store}

module _ (config : Config) (env : Env) where
  -- What `n` runs of a mint job may have minted for a payment: once what was paid, and once more for
  -- each run that sent a mint and left no hash on file.
  abbrev pub payment_bound : Payment → MintJob → ℕ → World Store → ℕ
  payment_bound p job n w =
      (1 + unrecorded (run config env job) (λ s. s.mints) (mint_on_file job) n w)
      * (p.amount_sats * sats_to_wei)

  abbrev pub IsBacked : Payment → MintJob → ℕ → World Store → Type 0
  IsBacked p job n w =
      minted_wei (attempts (run config env job) n w).store.mints
      ≤ minted_wei w.store.mints + payment_bound p job n w

  -- In direct mode: however the FairCoin watcher ends on a payment, it has queued no job, or one,
  -- and then however often that job runs, and however each run ends, what it mints is at most what
  -- was paid, and as much again for each run that sent a mint and left no hash on file.
  pub payment_mints_within :
      config.mint_auth_mode ≡ MintMode.direct_eoa
      → (p : Payment) (n : ℕ) (w : World Store)
      → ((process_payment config env p w).1.store.mint_jobs ≡ w.store.mint_jobs)
        ⊎ ((job : MintJob) × ((process_payment config env p w).1.store.mint_jobs
              ≡ job ∷ w.store.mint_jobs)
            × IsBacked p job n (process_payment config env p w).1)
  payment_mints_within mode p n w = elim (process_payment_mints config env p w) [
    | inl e ↦ inl e
    | inr (job, is, e) ↦
        let backed =
          mul_le
            (1
              + unrecorded (run config env job) (λ s. s.mints) (mint_on_file job) n
                  (process_payment config env p w).1)
            _ _ is.backed in
        inr (
          job,
          e,
          omega (
            arith,
            backed,
            attempts-minted config env job mode n (process_payment config env p w).1,
          ),
        )
  ]
