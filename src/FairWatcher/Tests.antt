-- ===== src/FairWatcher/Tests.antt =====
-- The FairCoin watcher at concrete inputs: block 50 pays 40 sats to address 6, which was given out
-- for Base address 5.
use faircoin_bridge.Amounts.{apply_fee}
use faircoin_bridge.Effects.{
  Error, Fate, World, act, ask, catch, look, modify, pure, query, skip, throw, ◌>>=◌, ◌>>◌,
}
use faircoin_bridge.FairWatcher.{
  accept, add_mint, add_mint_job, add_orphans, below_minimum, check_daily, check_tvl, confirm,
  confirm_and_mint, confirmed_key, counted, create_deposit, created, credited_status, daily_sats,
  day_ms, fair_watcher, find_origin, in_flight_status, in_flight_wei, initial_backfill_blocks,
  insert_unless, is_confirmed, is_open, job_of, match_deposit, max_tvl_wei, open_intent,
  orphan_deposit_age_ms, orphaned, over_daily_cap, over_tvl, payment_of, persist_terminal_deposit,
  post_fee_wei, process_block, process_output, process_payment, process_txs, process_vouts, readd,
  reconcile_orphan_deposits, refuse, scan, scan_chain, set_cursor, total_sats, total_wei,
  unless_seen, upsert_cursor, vout_address,
}
use faircoin_bridge.FairWatcher.Cursor.{Covered, fair_watcher_covers}
use faircoin_bridge.FairWatcher.Intents.{IsTidy}
use faircoin_bridge.FairWatcher.Mints.{Queued, process_payment_mints}
use faircoin_bridge.FairWatcher.Rescan.{process_payment_again}
use faircoin_bridge.FairWatcher.Scan.{HonestDuplicates}
use faircoin_bridge.Models.Deposit.{Deposit, DepositStatus}
use faircoin_bridge.Prelude.{
  Bool-cases, [], arith, if◌then◌else◌, inl, inr, refl, some, ℕ, ◌==◌, ◌∷◌, ◌≡◌,
}
use faircoin_bridge.Prelude.Collection.{claim_by_id, find_all, find_by_id, find_one, update_by_id}
use faircoin_bridge.Samples.{config, empty_store, intent, pay_env, payment}
use faircoin_bridge.Store.{Env, Store, alert, quiet}

abbrev world_of : Deposit → World Store
world_of d = record {
  clock = 0;
  store = record empty_store { deposits = (3, d) ∷ []; fair_cursor = some 49 };
}

world : World Store
world = world_of intent

-- The third call fails, and the process dies in the 20th.
abbrev faulty_env : Env
faulty_env = record pay_env {
  fate = λ n.
      if n == 2
      then Fate.refused Error.transient
      else (if n == 19 then Fate.dies_before else Fate.fine);
}

faulty_env-Honest : HonestDuplicates faulty_env
faulty_env-Honest (n, h) = elim (Bool-cases (n == 2)) [
  | inl t ↦ elim h [
    | inl e ↦ let x = rw t at e in absurd (cc)
    | inr e ↦ let x = rw t at e in absurd (cc)
  ]
  | inr f ↦ elim (Bool-cases (n == 19)) [
    | inl t ↦ elim h [
      | inl e ↦ let x = rw (f, t) at e in absurd (cc)
      | inr e ↦ let x = rw (f, t) at e in absurd (cc)
    ]
    | inr g ↦ elim h [
      | inl e ↦ let x = rw (f, g) at e in absurd (cc)
      | inr e ↦ let x = rw (f, g) at e in absurd (cc)
    ]
  ]
]

abbrev Known : ℕ → Type 0
Known a = a ≡ 6

world-Covered :
    Covered config faulty_env Known
      (faulty_env.block_txs 0)
      49
      (λ _ _ _. refl)
      (λ _ _. refl)
      faulty_env-Honest
      world.store
unfolding world
world-Covered =
    let tidy : IsTidy world.store.deposits = record {
      keys = (tt, tt);
      clean = ((λ _. refl), tt);
    } in
    (49, (tidy, (λ k (h, after, upto, among). absurd (omega (arith, after, upto))), refl))

fair_watcher_covers_example :
    Covered config faulty_env Known
      (faulty_env.block_txs 0)
      49
      (λ _ _ _. refl)
      (λ _ _. refl)
      faulty_env-Honest
      (fair_watcher config faulty_env 2 world).1.store
fair_watcher_covers_example =
    fair_watcher_covers config faulty_env Known (faulty_env.block_txs 0) 49 (λ _ _ _. refl)
      (λ _ _. refl) faulty_env-Honest 2 world world-Covered

process_payment_mints_example :
    Queued config pay_env payment world.store (process_payment config pay_env payment world).1.store
process_payment_mints_example = process_payment_mints config pay_env payment world

abbrev recorded_world : World Store
recorded_world =
    world_of
      (record intent { status = DepositStatus.minted; fair_txid = some 9; fair_vout = some 0 })

process_payment_again_example :
    (process_payment config pay_env payment recorded_world).1.store ≡ recorded_world.store
unfolding find_one
process_payment_again_example = process_payment_again config pay_env payment recorded_world refl

-- What one line of a test names to let the watcher run.
runs : Unit {0}
unfolding world scan_chain reconcile_orphan_deposits add_orphans orphaned is_confirmed upsert_cursor
    scan process_block process_txs process_vouts process_output vout_address payment_of
    process_payment match_deposit find_origin open_intent is_open unless_seen accept below_minimum
    check_daily over_daily_cap daily_sats total_sats counted credited_status day_ms check_tvl
    over_tvl max_tvl_wei post_fee_wei apply_fee in_flight_wei total_wei in_flight_status
    confirm_and_mint confirm confirmed_key claim_by_id find_by_id update_by_id add_mint add_mint_job
    job_of set_cursor refuse persist_terminal_deposit create_deposit created insert_unless find_one
    find_all alert quiet query ask modify act look skip pure throw catch ◌>>=◌ ◌>>◌
    orphan_deposit_age_ms initial_backfill_blocks readd fair_watcher
runs = tt

-- Two rounds over the same block give one mint, of 40 sats less the fee of 30 basis points.
payment_is_minted :
    (fair_watcher config pay_env 2 world).1.store.mint_jobs
    ≡ record {
      deposit_id = 3;
      base_address = 5;
      amount_wei = 398_800_000_000;
      fair_txid = 9;
      fair_vout = 0;
    }
      ∷ []
unfolding runs
payment_is_minted = refl
