-- ===== src/Reserves/Peg.antt =====
-- What a snapshot says of the peg (services/bridge/src/workers/reserves-snapshot.ts).
use faircoin_bridge.Decimal.Laws.{All-append}
use faircoin_bridge.Effects.{ask}
use faircoin_bridge.Effects.Hoare.{act-Ensures, bind-Ensures, look-Ensures}
use faircoin_bridge.Effects.Keeps.{Keeps, catch-Keeps, if-Keeps, skip-Keeps, then-Keeps}
use faircoin_bridge.Prelude.{All, arith, refl, suc, true, zero, ℕ, ◌*◌, ◌+◌, ◌/◌, ◌<◌, ◌↔◌, ◌≡◌}
use faircoin_bridge.Prelude.Int.{negsuc, pos, sub_ℕ}
use faircoin_bridge.Reserves.{
  capture_snapshot, insert_snapshot, is_nonnegative, new_snapshot, reserves_snapshot,
}
use faircoin_bridge.Store.{Env, ReservesSnapshot, Store}

module _ (env : Env) where
  -- The snapshot's figures are answers to the two questions, and its verdict is that the custody, in
  -- sats, covers all whole sats of the supply.
  pub record IsSound (x : ReservesSnapshot) : Type 0 where
    pub custody : (n : ℕ) × (x.fair_custody_sats ≡ env.wallet_balance_sats n)
    pub supply : (n : ℕ) × (x.wfair_supply_wei ≡ env.total_supply n)
    pub healthy :
        (x.peg_healthy ≡ true) ↔ (x.wfair_supply_wei < (x.fair_custody_sats + 1) * 10_000_000_000)
    pub surplus :
        (d : ℕ)
        → x.delta_sats ≡ pos d
        → x.fair_custody_sats ≡ x.wfair_supply_wei / 10_000_000_000 + d
    pub shortfall :
        (d : ℕ)
        → x.delta_sats ≡ negsuc d
        → x.fair_custody_sats + suc d ≡ x.wfair_supply_wei / 10_000_000_000

  abbrev pub AllSound : Store → Type 0
  AllSound s = All (λ x. IsSound x.1) s.reserves

  new_snapshot-IsSound :
      (n m now : ℕ) → IsSound (new_snapshot (env.wallet_balance_sats n) (env.total_supply m) now)
  unfolding new_snapshot is_nonnegative sub_ℕ
  new_snapshot-IsSound n m now = record {
    custody = (n, refl);
    supply = (m, refl);
    healthy = (λ h. ground arith, λ h. ground arith);
    surplus = λ d e. ground arith;
    shortfall = λ d e. ground arith;
  }

  capture_snapshot-AllSound : Keeps AllSound (capture_snapshot env)
  unfolding capture_snapshot ask
  capture_snapshot-AllSound =
      bind-Ensures (λ custody s. AllSound s × ((n : ℕ) × (custody ≡ env.wallet_balance_sats n)))
        (act-Ensures _ _ (λ n s p. ((p, (n, refl)), p, p)))
        (λ custody.
          bind-Ensures
            (λ supply s.
              AllSound s
              × ((n : ℕ) × (custody ≡ env.wallet_balance_sats n))
              × ((n : ℕ) × (supply ≡ env.total_supply n)))
            (act-Ensures _ _ (λ n s p. ((p.0, p.1, (n, refl)), p.0, p.0)))
            (λ supply. act-Ensures _ _ (λ n s p.
              let after = snapshot_added custody supply (env.now n) s p.0 p.1 p.2 in
              (after, p.0, after))))
    where
      snapshot_added :
          (custody supply now : ℕ) (s : Store)
          → AllSound s
          → ((n : ℕ) × (custody ≡ env.wallet_balance_sats n))
          → ((n : ℕ) × (supply ≡ env.total_supply n))
          → AllSound (insert_snapshot (new_snapshot custody supply now) s)
      snapshot_added custody supply now s p (n, e) (m, f) =
          unfold insert_snapshot in
          All-append (λ x. IsSound x.1) s.reserves _ p
            (rw e (rw f (new_snapshot-IsSound n m now)), tt)

  -- From a state whose snapshots are sound, and however the calls of the worker's rounds end, every
  -- snapshot is sound: its figures are what faircoind's wallet held and what the token's supply was at
  -- a moment, it calls the peg healthy exactly when the custody covers the whole sats of the supply,
  -- and its signed difference is the surplus or the shortfall.
  pub reserves_snapshot-AllSound : (rounds : ℕ) → Keeps AllSound (reserves_snapshot env rounds)
  unfolding reserves_snapshot
  reserves_snapshot-AllSound zero = skip-Keeps
  reserves_snapshot-AllSound (suc rounds) =
      bind-Ensures (λ _. AllSound) (look-Ensures _ (λ n s p. p))
        (λ aborted. if-Keeps aborted skip-Keeps (
          then-Keeps (catch-Keeps capture_snapshot-AllSound (λ _. skip-Keeps))
            (reserves_snapshot-AllSound rounds)))
