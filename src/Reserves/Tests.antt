-- ===== src/Reserves/Tests.antt =====
-- The snapshots at concrete inputs.
use faircoin_bridge.Effects.{World, act, ask, catch, look, pure, skip, ◌>>=◌, ◌>>◌}
use faircoin_bridge.Effects.Keeps.{Keeps}
use faircoin_bridge.Prelude.{[], false, keep, not, refl, ◌∷◌, ◌≡◌}
use faircoin_bridge.Prelude.Collection.{next_id}
use faircoin_bridge.Prelude.Int.{negsuc, sub_ℕ}
use faircoin_bridge.Reserves.{reserves_snapshot}
use faircoin_bridge.Reserves.Peg.{AllSound, reserves_snapshot-AllSound}
use faircoin_bridge.Samples.{calm_env, empty_store}
use faircoin_bridge.Store.{Env, Store}

short_env : Env
short_env = record calm_env { total_supply = λ _. 5_020_000_000_000 }

world : World Store
world = record { clock = 0; store = empty_store }

reserves_snapshot-AllSound_example : Keeps (AllSound calm_env) (reserves_snapshot calm_env 2)
reserves_snapshot-AllSound_example = reserves_snapshot-AllSound calm_env 2

two_sats_short :
    keep (λ x. not x.1.peg_healthy) (reserves_snapshot short_env 1 world).1.store.reserves
    ≡ (
      0,
      record {
        at = 2;
        fair_custody_sats = 500;
        wfair_supply_wei = 5_020_000_000_000;
        delta_sats = negsuc 1;
        peg_healthy = false;
      },
    )
      ∷ []
unfolding short_env world reserves_snapshot sub_ℕ next_id ask act look skip pure catch ◌>>=◌ ◌>>◌
two_sats_short = refl
