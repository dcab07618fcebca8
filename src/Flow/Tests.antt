-- ===== src/Flow/Tests.antt =====
-- The flows at concrete inputs: a payment of 40 sats to an open intent, and a burn of 40 sats.
use faircoin_bridge.Effects.{World}
use faircoin_bridge.FairWatcher.{process_payment}
use faircoin_bridge.Flow.Payments
use faircoin_bridge.Flow.Burns
use faircoin_bridge.Flow.Payments.{payment_mints_within}
use faircoin_bridge.Prelude.{[], refl, some, ◌∷◌, ◌≡◌, ◌⊎◌}
use faircoin_bridge.Samples.{config, empty_store, intent, pay_env, payment}
use faircoin_bridge.Store.{MintJob, Store}

world : World Store
world = record {
  clock = 0;
  store = record empty_store { deposits = (3, intent) ∷ []; base_cursor = some 60 };
}

payment_mints_within_example :
    ((process_payment config pay_env payment world).1.store.mint_jobs ≡ world.store.mint_jobs)
    ⊎ ((job : MintJob) × ((process_payment config pay_env payment world).1.store.mint_jobs
          ≡ job ∷ world.store.mint_jobs)
        × Payments.IsBacked config pay_env payment job 3
            (process_payment config pay_env payment world).1)
payment_mints_within_example = payment_mints_within config pay_env refl payment 3 world
