-- ===== src/Mint/Claims.antt =====
-- The claim that guards a broadcast (services/bridge/src/signer/base.ts, `claimMint`).
use faircoin_bridge.Mint.{claim_effect, claimable, claimable_status, set_minting}
use faircoin_bridge.Models.Deposit.{Deposit}
use faircoin_bridge.Prelude.{arith, some, ℕ, ◌≡◌}
use faircoin_bridge.Prelude.Collection.{claim_by_id, find_by_id-update}
use faircoin_bridge.Store.{Store}

-- The claim excludes nobody: right after one worker has claimed a deposit, and before it has put a
-- hash on file, a second worker's claim of that deposit succeeds as well.
pub claim_again :
    (id : ℕ) (s : Store) {d : Deposit}
    → (claim_effect id s).0 ≡ some d
    → (claim_effect id (claim_effect id s).1).0 ≡ some d
unfolding claim_effect claim_by_id claimable claimable_status set_minting
claim_again id s h = ground (arith, find_by_id-update id id set_minting s.deposits)
