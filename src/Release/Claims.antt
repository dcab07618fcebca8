-- ===== src/Release/Claims.antt =====
-- The claim that guards a payment (services/bridge/src/signer/fair.ts, `claimRelease`).
use faircoin_bridge.Models.Withdrawal.{Withdrawal}
use faircoin_bridge.Prelude.{arith, some, ℕ, ◌≡◌}
use faircoin_bridge.Prelude.Collection.{claim_by_id, find_by_id-update}
use faircoin_bridge.Release.{claim_release_effect, releasable, releasable_status, set_signing}
use faircoin_bridge.Store.{Store}

-- The claim excludes nobody: right after one worker has claimed a withdrawal, and before it has put
-- a txid on file, a second worker's claim of that withdrawal succeeds as well.
pub claim_release_again :
    (id : ℕ) (s : Store) {d : Withdrawal}
    → (claim_release_effect id s).0 ≡ some d
    → (claim_release_effect id (claim_release_effect id s).1).0 ≡ some d
unfolding claim_release_effect claim_by_id releasable releasable_status set_signing
claim_release_again id s h = ground (arith, find_by_id-update id id set_signing s.withdrawals)
