-- ===== src/BaseWatcher.antt =====
-- services/bridge/src/workers/base-watcher.ts: it turns the BridgeBurn events of Base into
-- withdrawals and release jobs, in windows of blocks behind a cursor.
pub mod Scan
pub mod Cursor
pub mod Releases
pub mod CatchUp
mod Tests
use faircoin_bridge.Amounts.{apply_fee, sats_to_wei}
use faircoin_bridge.Effects.{
  Error, act, ask, catch, look, modify, pure, query, skip, throw, ◌>>=◌, ◌>>◌,
}
use faircoin_bridge.Models.Chain.{Burn, Log}
use faircoin_bridge.Models.Withdrawal.{Withdrawal, WithdrawalStatus}
use faircoin_bridge.Prelude.{
  Bool, List, Option, [], false, first, if◌then◌else◌, leb, ltb, none, not, some, suc, true, zero,
  ℕ, ◌&&◌, ◌*◌, ◌++◌, ◌+◌, ◌-◌, ◌/◌, ◌==◌, ◌∷◌,
}
use faircoin_bridge.Prelude.Collection.{Collection, find_all, find_one, next_id}
use faircoin_bridge.Store.{Action, Alert, Config, Env, ReleaseJob, Store, alert}

-- The key of a burn: its transaction and the index of its log.
abbrev pub is_burn : ℕ → ℕ → Withdrawal → Bool
is_burn hash index d = d.base_burn_tx_hash == hash && d.log_index == index

-- A burn that a log reports in full.
pub record SeenBurn : Type 0 where
  pub hash : ℕ
  pub index : ℕ
  pub block : ℕ
  pub burn : Burn

-- The guards of `processLog`: identifiers that are missing, and `decodeBurn`.
unfoldable pub seen_burn : Log → Option SeenBurn
seen_burn l = go l.transaction_hash l.log_index l.block_number l.burn
  where
    go : Option ℕ → Option ℕ → Option ℕ → Option Burn → Option SeenBurn
    go (some h) (some i) (some b) (some burn) =
        some (record { hash = h; index = i; block = b; burn = burn })
    go _ _ _ _ = none

-- The status filter of `sumDailyWithdrawalSatsForAddress`.
counted_status : WithdrawalStatus → Bool
counted_status WithdrawalStatus.confirmed = true
counted_status WithdrawalStatus.signing = true
counted_status WithdrawalStatus.broadcast = true
counted_status WithdrawalStatus.final = true
counted_status _ = false

day_ms : ℕ
day_ms = 86_400_000

counted : ℕ → ℕ → Withdrawal → Bool
counted from now d =
    d.from_base_address == from && leb (now - day_ms) d.created_at && counted_status d.status

total_sats : Collection Withdrawal → ℕ
total_sats [] = 0
total_sats ((_, d) ∷ c) = d.amount_sats + total_sats c

daily_sats : ℕ → ℕ → Store → ℕ
daily_sats from now s = total_sats (find_all (counted from now) s.withdrawals)

-- The document of a burn, before it is created.
abbrev pub new_withdrawal :
    SeenBurn → (address amount_wei amount_sats : ℕ) → WithdrawalStatus → Withdrawal
new_withdrawal b address amount_wei amount_sats status = record {
  base_burn_tx_hash = b.hash;
  base_block_number = b.block;
  log_index = b.index;
  from_base_address = b.burn.from;
  destination_fair_address = address;
  amount_wei = amount_wei;
  amount_sats = amount_sats;
  status = status;
  fair_txid = none;
  fair_confirmations = 0;
  fair_broadcast_at = none;
  created_at = 0;
}

-- What `Withdrawal.create` does, given a document with the same key; `none` is a duplicate.
unfoldable pub insert_unless :
    Option (ℕ × Withdrawal) → (id now : ℕ) → Withdrawal → Store → Option ℕ × Store
insert_unless (some _) id now d s = (none, s)
insert_unless none id now d s =
    (some id, record s { withdrawals = s.withdrawals ++ (id, record d { created_at = now }) ∷ [] })

-- `Withdrawal.create` under the unique index on the burn's key
unfoldable pub insert_withdrawal : (id now : ℕ) → Withdrawal → Store → Option ℕ × Store
unfolding insert_unless
insert_withdrawal id now d s =
    insert_unless (find_one (is_burn d.base_burn_tx_hash d.log_index) s.withdrawals) id now d s

unfoldable pub job_of : ℕ → Withdrawal → ReleaseJob
job_of id d = record {
  withdrawal_id = id;
  destination_fair_address = d.destination_fair_address;
  amount_sats = d.amount_sats;
  base_burn_tx_hash = d.base_burn_tx_hash;
  log_index = d.log_index;
}

-- The release of a burn is the burned amount in whole sats, less the fee.
unfoldable pub released_sats : Config → SeenBurn → ℕ
released_sats config b = apply_fee (b.burn.amount / sats_to_wei) config.bridge_fee_bps

orphan_withdrawal_age_ms : ℕ
orphan_withdrawal_age_ms = 300_000

is_confirmed : WithdrawalStatus → Bool
is_confirmed WithdrawalStatus.confirmed = true
is_confirmed _ = false

orphaned : ℕ → Withdrawal → Bool
orphaned now d = is_confirmed d.status && ltb d.created_at (now - orphan_withdrawal_age_ms)

initial_backfill_blocks : ℕ
initial_backfill_blocks = 50

max_log_range : ℕ
max_log_range = 10

-- The last block of the window that starts at a block.
unfoldable pub window_end : (from safe_tip : ℕ) → ℕ
unfolding max_log_range
window_end from safe_tip =
    if ltb safe_tip (from + max_log_range - 1) then safe_tip else from + max_log_range - 1

set_cursor : ℕ → Store → Store
set_cursor block s = record s { base_cursor = some block }

-- `findOneAndUpdate` with `$setOnInsert`
upsert_cursor : ℕ → Store → ℕ × Store
upsert_cursor tip s = elim s.base_cursor [
  | some last ↦ (last, s)
  | none ↦ (tip - initial_backfill_blocks, set_cursor (tip - initial_backfill_blocks) s)
]

module _ (config : Config) (env : Env) where
  open env use {fate}

  created : Option ℕ → Action ℕ
  created none = throw Error.duplicate_key
  created (some id) = pure id

  create_withdrawal : Withdrawal → Action ℕ
  create_withdrawal d =
      act fate (λ n s. insert_withdrawal (next_id s.withdrawals) (env.now n) d s) >>= created

  add_release_job : ReleaseJob → Action (Unit {0})
  add_release_job job = modify fate (λ s. record s { release_jobs = job ∷ s.release_jobs })

  -- A `validateAddress` that throws counts as an address that is not valid.
  is_valid_destination : ℕ → Action Bool
  is_valid_destination address =
      catch (ask fate (λ n. env.is_valid_address n address)) (λ _. pure false)

  fail_burn : SeenBurn → ℕ → Alert → Action (Unit {0})
  fail_burn b address a = do
    create_withdrawal (
        new_withdrawal b address b.burn.amount (b.burn.amount / sats_to_wei)
          WithdrawalStatus.failed)
    alert env a

  release_burn : SeenBurn → ℕ → Action (Unit {0})
  release_burn b address = do
    let d =
        new_withdrawal b address (released_sats config b * sats_to_wei) (released_sats config b)
          WithdrawalStatus.confirmed
    id ← create_withdrawal d
    add_release_job (job_of id d)

  over_cap : SeenBurn → ℕ → Bool
  over_cap b daily_so_far =
      ltb config.per_address_daily_cap_sats (daily_so_far + b.burn.amount / sats_to_wei)

  accept_burn : SeenBurn → ℕ → Action (Unit {0})
  accept_burn b address = do
    daily_so_far ← act fate (λ n s. (daily_sats b.burn.from (env.now n) s, s))
    if over_cap b daily_so_far
        then fail_burn b address (Alert.withdrawal_over_cap b.burn.from)
        else release_burn b address

  process_new : SeenBurn → Option (ℕ × Withdrawal) → Action (Unit {0})
  process_new b (some _) = skip
  process_new b none = do
    valid ← is_valid_destination (env.address_text b.burn.faircoin_address)
    if valid
        then accept_burn b (env.address_text b.burn.faircoin_address)
        else fail_burn b (env.address_text b.burn.faircoin_address) (Alert.bad_burn_address b.hash)

  process_seen : Option SeenBurn → Action (Unit {0})
  process_seen none = skip
  process_seen (some b) =
      query fate (λ s. find_one (is_burn b.hash b.index) s.withdrawals) >>= process_new b

  -- `processLog`
  pub process_log : Log → Action (Unit {0})
  process_log l = process_seen (seen_burn l)

  add_orphans : Collection Withdrawal → Action (Unit {0})
  add_orphans [] = skip
  add_orphans ((id, d) ∷ c) = add_release_job (job_of id d) >> add_orphans c

  -- `reconcileOrphanWithdrawals`, 50 documents at a time
  pub reconcile_orphan_withdrawals : Action (Unit {0})
  reconcile_orphan_withdrawals =
      act fate (λ n s. (first 50 (find_all (orphaned (env.now n)) s.withdrawals), s))
      >>= add_orphans

  -- The logs of a window; an abort leaves the rest out.
  pub process_logs : List Log → Action (Unit {0})
  process_logs [] = skip
  process_logs (l ∷ ls) = do
    aborted ← look env.aborted
    if aborted then skip else process_log l >> process_logs ls

  scan_window : (from to : ℕ) → Action (Unit {0})
  scan_window from to = do
    logs ← ask fate (λ n. env.burn_logs n from to)
    process_logs logs
    modify fate (set_cursor to)

  -- The `while` loop over the windows; each window has a block, so `safe_tip` less the cursor is
  -- enough fuel.
  scan : (fuel from safe_tip : ℕ) → Action (Unit {0})
  scan zero from safe_tip = skip
  scan (suc fuel) from safe_tip = do
    let to = window_end from safe_tip
    let next = scan_window from to >> scan fuel (to + 1) safe_tip
    aborted ← look env.aborted
    if leb from safe_tip && not aborted then next else skip

  scan_from : (safe_tip last : ℕ) → Action (Unit {0})
  scan_from safe_tip last =
      if ltb last safe_tip then scan (safe_tip - last) (last + 1) safe_tip else skip

  -- The body of the `try` in `startBaseWatcher`.
  pub scan_chain : Action (Unit {0})
  scan_chain = do
    reconcile_orphan_withdrawals
    tip ← ask fate env.base_tip
    last ← act fate (λ _ s. upsert_cursor tip s)
    scan_from (tip - config.base_confirmations) last

  -- `startBaseWatcher`, for a number of rounds; what a round throws is logged.
  pub base_watcher : ℕ → Action (Unit {0})
  base_watcher zero = skip
  base_watcher (suc rounds) = do
    let next = base_watcher rounds
    aborted ← look env.aborted
    if aborted then skip else catch scan_chain (λ _. skip) >> next
