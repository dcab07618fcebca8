-- ===== src/Reserves.antt =====
-- services/bridge/src/workers/reserves-snapshot.ts and api/reserves.ts: what the bridge holds against
-- what it has issued.
pub mod Peg
mod Tests
use faircoin_bridge.Amounts.{sats_to_wei}
use faircoin_bridge.Effects.{act, ask, catch, look, query, skip, ◌>>=◌, ◌>>◌}
use faircoin_bridge.Prelude.{
  Bool, Option, [], false, if◌then◌else◌, ltb, none, some, suc, true, zero, ℕ, ◌++◌, ◌/◌, ◌∷◌,
}
use faircoin_bridge.Prelude.Collection.{Collection, next_id}
use faircoin_bridge.Prelude.Int.{negsuc, pos, sub_ℕ, ℤ}
use faircoin_bridge.Store.{Action, Env, ReservesSnapshot, Store}

is_nonnegative : ℤ → Bool
is_nonnegative (pos _) = true
is_nonnegative (negsuc _) = false

new_snapshot : (custody_sats supply_wei now : ℕ) → ReservesSnapshot
new_snapshot custody_sats supply_wei now =
    let delta = sub_ℕ custody_sats (supply_wei / sats_to_wei) in
    record {
      at = now;
      fair_custody_sats = custody_sats;
      wfair_supply_wei = supply_wei;
      delta_sats = delta;
      peg_healthy = is_nonnegative delta;
    }

insert_snapshot : ReservesSnapshot → Store → Store
insert_snapshot x s = record s { reserves = s.reserves ++ (next_id s.reserves, x) ∷ [] }

-- The newest of the snapshots, by the time that they were taken at; of two, the one added later.
newest_of :
    Option (ℕ × ReservesSnapshot) → Collection ReservesSnapshot → Option (ℕ × ReservesSnapshot)
newest_of best [] = best
newest_of none (x ∷ c) = newest_of (some x) c
newest_of (some best) (x ∷ c) = newest_of (some (if ltb x.1.at best.1.at then best else x)) c

module _ (env : Env) where
  open env use {fate}

  -- `captureSnapshot`; the two answers are awaited together in the source.
  capture_snapshot : Action (Unit {0})
  capture_snapshot = do
    custody ← ask fate env.wallet_balance_sats
    supply ← ask fate env.total_supply
    act fate (λ n s. (tt, insert_snapshot (new_snapshot custody supply (env.now n)) s))

  -- `startReservesSnapshot`, for a number of rounds
  unfoldable pub reserves_snapshot : ℕ → Action (Unit {0})
  unfolding capture_snapshot insert_snapshot new_snapshot is_nonnegative
  reserves_snapshot zero = skip
  reserves_snapshot (suc rounds) = do
    let next = reserves_snapshot rounds
    aborted ← look env.aborted
    if aborted then skip else catch capture_snapshot (λ _. skip) >> next

  -- `GET /` of the reserves: `none` is the response 503.
  pub get_reserves : Action (Option (ℕ × ReservesSnapshot))
  get_reserves = query fate (λ s. newest_of none s.reserves)
