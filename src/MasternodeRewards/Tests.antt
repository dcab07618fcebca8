-- ===== src/MasternodeRewards/Tests.antt =====
-- The masternode reward worker at concrete inputs: 100 sats and two enabled masternodes.
use faircoin_bridge.Amounts.{compute_per_masternode_sats, per_masternode_within_pool}
use faircoin_bridge.Effects.{
  Error, Fate, World, act, ask, catch, modify, pure, query, skip, throw, ◌>>=◌, ◌>>◌,
}
use faircoin_bridge.MasternodeRewards.{
  all_final, already_broadcast_outpoints, broadcast_payout, build_payouts, claim_resumable_cycle,
  create_cycle, execute_cycle, execute_loaded, fail_payout, fair_tx_exists, final_status, finalise,
  get_raw_transaction, insert_cycle, is_eligible, is_final, is_paying_out, is_resumable,
  mark_payout_broadcast, mark_payout_failed, new_cycle, not_found, outpoint_key, pay_all,
  pay_by_txid, per_masternode, persist_payout_txid, read_pool_balance_sats, reconcile_payout,
  record_skip, run_masternode_reward_tick, same_outpoint, send_payout, set_broadcast, set_failed,
  set_final, set_payout, set_status, set_txid, start_cycle, start_if_enough, start_or_resume,
  start_unless_recent, start_with, update_at, was_sent,
}
use faircoin_bridge.Models.Chain.{MasternodeListEntry, MasternodeStatus}
use faircoin_bridge.Prelude.{[], arith, if◌then◌else◌, refl, ℕ, ◌*◌, ◌+◌, ◌==◌, ◌∷◌, ◌≡◌, ◌≤◌}
use faircoin_bridge.Prelude.Collection.{
  claim_by_id, claim_first, find_by_id, find_one, next_id, update_by_id,
}
use faircoin_bridge.Release.{sats_to_fair}
use faircoin_bridge.Samples.{calm_env, config, empty_store}
use faircoin_bridge.Store.{Env, Store, alert, quiet}

abbrev entry_of : ℕ → MasternodeStatus → MasternodeListEntry
entry_of n status = record { txhash = n; outidx = 0; addr = 100 + n; status = status }

abbrev reward_env : Env
reward_env = record calm_env {
  received_sats = λ _. 100;
  masternodes = λ _.
      entry_of 1 MasternodeStatus.enabled
      ∷ entry_of 2 MasternodeStatus.other_status
      ∷ entry_of 3 MasternodeStatus.enabled
      ∷ [];
}

-- The answer to the first payment is lost, and the process is killed before the cycle is final.
abbrev lost_env : Env
lost_env = record reward_env {
  masternodes = λ _. entry_of 1 MasternodeStatus.enabled ∷ [];
  fate = λ n.
      if n == 6
      then Fate.unheard Error.transient
      else (if n == 9 then Fate.dies_before else Fate.fine);
}

world : World Store
world = record { clock = 0; store = empty_store }

per_masternode_within_pool_example : compute_per_masternode_sats 100 2 1 * 2 + 1 * 2 ≤ 100
unfolding compute_per_masternode_sats
per_masternode_within_pool_example = per_masternode_within_pool 100 2 1 (omega arith)

-- What one line of a test names to let the worker run.
runs : Unit {0}
unfolding world run_masternode_reward_tick claim_resumable_cycle claim_first start_or_resume
    start_unless_recent read_pool_balance_sats start_with start_if_enough per_masternode
    compute_per_masternode_sats start_cycle create_cycle insert_cycle next_id new_cycle
    build_payouts outpoint_key is_eligible execute_loaded execute_cycle pay_all pay_by_txid
    already_broadcast_outpoints same_outpoint was_sent send_payout broadcast_payout
    persist_payout_txid mark_payout_broadcast mark_payout_failed fail_payout set_payout update_at
    set_txid set_broadcast set_failed finalise all_final is_final final_status set_final
    is_paying_out claim_by_id find_by_id update_by_id find_one is_resumable set_status alert quiet
    query ask modify act skip pure throw catch ◌>>=◌ ◌>>◌ record_skip fair_tx_exists
    get_raw_transaction not_found reconcile_payout
runs = tt

two_masternodes_are_paid :
    (run_masternode_reward_tick config reward_env world).1.store.sends
    ≡ record { address = 103; amount = sats_to_fair 49 }
      ∷ record { address = 101; amount = sats_to_fair 49 }
      ∷ []
unfolding runs
two_masternodes_are_paid = refl

-- The tick after the lost answer pays the same masternode again.
lost_answer_pays_twice :
    (run_masternode_reward_tick config lost_env
      (run_masternode_reward_tick config lost_env world).1).1.store.sends
    ≡ record { address = 101; amount = sats_to_fair 99 }
      ∷ record { address = 101; amount = sats_to_fair 99 }
      ∷ []
unfolding runs
lost_answer_pays_twice = refl
