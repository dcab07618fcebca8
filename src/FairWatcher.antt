-- ===== src/FairWatcher.antt =====
-- services/bridge/src/workers/fair-watcher.ts: it turns the payments to the bridge's FairCoin
-- addresses into deposits and mint jobs, block by block behind a cursor.
pub mod Mints
pub mod Intents
pub mod Scan
pub mod Cursor
pub mod Rescan
mod Tests
use faircoin_bridge.Amounts.{apply_fee, sats_to_wei}
use faircoin_bridge.Concurrency.Bounds.{in_flight}
use faircoin_bridge.Effects.{
  Error, act, ask, catch, look, modify, pure, query, skip, throw, ◌>>=◌, ◌>>◌,
}
use faircoin_bridge.Models.Chain.{BlockTx, TxVout}
use faircoin_bridge.Models.Deposit.{Deposit, DepositStatus}
use faircoin_bridge.Prelude.{
  Bool, List, Option, [], equals, false, first, if◌then◌else◌, is_some, leb, ltb, none, some, suc,
  true, zero, ℕ, ◌&&◌, ◌*◌, ◌++◌, ◌+◌, ◌-◌, ◌==◌, ◌∷◌,
}
use faircoin_bridge.Prelude.Collection.{
  Collection, claim_by_id, find_all, find_one, next_id, update_by_id,
}
use faircoin_bridge.Store.{Action, Alert, Config, Env, MintJob, Store, alert}

-- The key of a payment: its transaction and the index of its output.
abbrev pub is_vout : ℕ → ℕ → Deposit → Bool
is_vout txid n d = equals txid d.fair_txid && equals n d.fair_vout

-- `voutAddress`
pub vout_address : TxVout → Option ℕ
vout_address v = go v.addresses
  where
    go : List ℕ → Option ℕ
    go (a ∷ _) = some a
    go [] = v.address

unfoldable pub is_open : DepositStatus → Bool
is_open DepositStatus.awaiting = true
is_open DepositStatus.detected = true
is_open _ = false

open_intent : ℕ → Deposit → Bool
open_intent address d = d.fair_address == address && is_open d.status

in_flight_status : DepositStatus → Bool
in_flight_status DepositStatus.detected = true
in_flight_status DepositStatus.confirmed = true
in_flight_status DepositStatus.minting = true
in_flight_status _ = false

total_wei : Collection Deposit → ℕ
total_wei [] = 0
total_wei ((_, d) ∷ c) = d.amount_wei + total_wei c

-- `sumInFlightWei`
pub in_flight_wei : Store → ℕ
in_flight_wei s = total_wei (find_all (λ d. in_flight_status d.status) s.deposits)

credited_status : DepositStatus → Bool
credited_status DepositStatus.confirmed = true
credited_status DepositStatus.minting = true
credited_status DepositStatus.minted = true
credited_status _ = false

day_ms : ℕ
day_ms = 86_400_000

counted : ℕ → ℕ → Deposit → Bool
counted base now d =
    d.base_address == base && leb (now - day_ms) d.created_at && credited_status d.status

total_sats : Collection Deposit → ℕ
total_sats [] = 0
total_sats ((_, d) ∷ c) = d.amount_sats + total_sats c

-- `sumDailyDepositSatsForAddress`
pub daily_sats : ℕ → ℕ → Store → ℕ
daily_sats base now s = total_sats (find_all (counted base now) s.deposits)

-- A payment to one of the bridge's addresses, as `processBlock` holds it.
pub record Payment : Type 0 where
  pub fair_address : ℕ
  pub fair_txid : ℕ
  pub fair_vout : ℕ
  pub fair_block_height : ℕ
  pub fair_confirmations : ℕ
  pub amount_sats : ℕ

-- What `matchVout` finds: the open intent with its key, and the earliest deposit of the address.
pub record MatchedDeposit : Type 0 where
  pub pending : Option (ℕ × Deposit)
  pub origin : Option (ℕ × Deposit)

abbrev pub set_payment : Payment → DepositStatus → ℕ → Deposit → Deposit
set_payment p status amount_wei d = record d {
  status = status;
  fair_txid = some p.fair_txid;
  fair_vout = some p.fair_vout;
  fair_block_height = some p.fair_block_height;
  fair_confirmations = p.fair_confirmations;
  amount_sats = p.amount_sats;
  amount_wei = amount_wei;
}

-- A document that `Deposit.create` is given for a payment.
abbrev pub new_deposit : (base : ℕ) (hd_index : Option ℕ) → Payment → DepositStatus → ℕ → Deposit
new_deposit base hd_index p status amount_wei = record {
  base_address = base;
  fair_address = p.fair_address;
  hd_index = hd_index;
  status = status;
  fair_txid = some p.fair_txid;
  fair_vout = some p.fair_vout;
  fair_block_height = some p.fair_block_height;
  fair_confirmations = p.fair_confirmations;
  amount_sats = p.amount_sats;
  amount_wei = amount_wei;
  base_mint_tx_hash = none;
  base_mint_block_number = none;
  safe_tx_hash = none;
  client_ip = none;
  created_at = 0;
}

-- What `Deposit.create` does, given a document with the same payment; `none` is a duplicate.
insert_unless : Option (ℕ × Deposit) → (id now : ℕ) → Deposit → Store → Option ℕ × Store
insert_unless (some _) id now d s = (none, s)
insert_unless none id now d s =
    (some id, record s { deposits = s.deposits ++ (id, record d { created_at = now }) ∷ [] })

set_cursor : ℕ → Store → Store
set_cursor block s = record s { fair_cursor = some block }

initial_backfill_blocks : ℕ
initial_backfill_blocks = 100

upsert_cursor : ℕ → Store → ℕ × Store
upsert_cursor tip s = elim s.fair_cursor [
  | some last ↦ (last, s)
  | none ↦ (tip - initial_backfill_blocks, set_cursor (tip - initial_backfill_blocks) s)
]

-- The wei that a payment is worth after the fee.
unfoldable pub post_fee_wei : Config → Payment → ℕ
post_fee_wei config p = apply_fee (p.amount_sats * sats_to_wei) config.bridge_fee_bps

job_of : (id base : ℕ) → Payment → ℕ → MintJob
job_of id base p wei = record {
  deposit_id = id;
  base_address = base;
  amount_wei = wei;
  fair_txid = p.fair_txid;
  fair_vout = p.fair_vout;
}

orphan_deposit_age_ms : ℕ
orphan_deposit_age_ms = 300_000

is_confirmed : DepositStatus → Bool
is_confirmed DepositStatus.confirmed = true
is_confirmed _ = false

-- The filter of `reconcileOrphanDeposits`.
orphaned : ℕ → Deposit → Bool
orphaned now d =
    is_confirmed d.status
    && ltb d.created_at (now - orphan_deposit_age_ms)
    && is_some d.fair_txid
    && is_some d.fair_vout

module _ (config : Config) (env : Env) where
  open env use {fate}

  created : Option ℕ → Action ℕ
  created none = throw Error.duplicate_key
  created (some id) = pure id

  create_deposit : (base : ℕ) → Option ℕ → Payment → DepositStatus → ℕ → Action ℕ
  create_deposit base hd_index p status wei =
      act fate (λ n s.
        insert_unless (find_one (is_vout p.fair_txid p.fair_vout) s.deposits) (next_id s.deposits)
          (env.now n) (new_deposit base hd_index p status wei) s)
      >>= created

  find_origin : ℕ → Option (ℕ × Deposit) → Action (Option (ℕ × Deposit))
  find_origin address (some found) = pure (some found)
  find_origin address none = query fate (λ s. find_one (λ d. d.fair_address == address) s.deposits)

  -- The documents of `matchVout`.
  match_deposit : ℕ → Action MatchedDeposit
  match_deposit address = do
    pending ← query fate (λ s. find_one (open_intent address) s.deposits)
    origin ← find_origin address pending
    pure (record { pending = pending; origin = origin })

  -- `persistTerminalDeposit`
  persist_terminal_deposit :
      Option (ℕ × Deposit) → (base : ℕ) → Option ℕ → Payment → Action (Unit {0})
  persist_terminal_deposit (some (id, _)) base hd_index p = modify fate (λ s. record s {
    deposits =
        update_by_id id (set_payment p DepositStatus.failed (p.amount_sats * sats_to_wei))
          s.deposits;
  })
  persist_terminal_deposit none base hd_index p =
      create_deposit base hd_index p DepositStatus.failed (p.amount_sats * sats_to_wei) >> skip

  add_mint_job : MintJob → Action (Unit {0})
  add_mint_job job = modify fate (λ s. record s { mint_jobs = job ∷ s.mint_jobs })

  refuse : Option (ℕ × Deposit) → Deposit → Payment → Alert → Action (Unit {0})
  refuse pending origin p a = do
    persist_terminal_deposit pending origin.base_address origin.hd_index p
    alert env a

  add_mint : ℕ → Payment → Option ℕ → Action (Unit {0})
  add_mint base p none = skip
  add_mint base p (some id) = add_mint_job (job_of id base p (post_fee_wei config p))

  confirmed_key : ℕ → Option Deposit → Option ℕ
  confirmed_key id none = none
  confirmed_key id (some _) = some id

  ignore_duplicate : Error → Action (Option ℕ)
  ignore_duplicate Error.duplicate_key = pure none
  ignore_duplicate e = throw e

  -- The document that becomes CONFIRMED, if no other watcher was faster.
  confirm : Option (ℕ × Deposit) → Deposit → Payment → Action (Option ℕ)
  confirm (some (id, _)) origin p = act fate (λ n s.
      let (found, c) =
        claim_by_id id (λ d. is_open d.status)
          (set_payment p DepositStatus.confirmed (post_fee_wei config p)) s.deposits in
      (confirmed_key id found, record s { deposits = c }))
  confirm none origin p =
      catch
        (create_deposit origin.base_address origin.hd_index p DepositStatus.confirmed
            (post_fee_wei config p)
          >>= (λ id. pure (some id)))
        ignore_duplicate

  confirm_and_mint : Option (ℕ × Deposit) → Deposit → Payment → Action (Unit {0})
  confirm_and_mint pending origin p = confirm pending origin p >>= add_mint origin.base_address p

  below_minimum : Payment → Bool
  below_minimum p = ltb p.amount_sats config.min_deposit_sats

  over_daily_cap : Payment → ℕ → Bool
  over_daily_cap p daily_so_far =
      ltb config.per_address_daily_cap_sats (daily_so_far + p.amount_sats)

  pub max_tvl_wei : ℕ
  max_tvl_wei = config.max_tvl_fair * 100_000_000 * sats_to_wei

  over_tvl : Payment → (supply in_flight : ℕ) → Bool
  over_tvl p supply in_flight = ltb max_tvl_wei (supply + in_flight + post_fee_wei config p)

  check_tvl : Option (ℕ × Deposit) → Deposit → Payment → Action (Unit {0})
  check_tvl pending origin p = do
    supply ← ask fate env.total_supply
    in_flight ← query fate in_flight_wei
    if over_tvl p supply in_flight
        then refuse pending origin p (Alert.tvl_exceeded p.fair_txid)
        else confirm_and_mint pending origin p

  check_daily : Option (ℕ × Deposit) → Deposit → Payment → Action (Unit {0})
  check_daily pending origin p = do
    daily_so_far ← act fate (λ n s. (daily_sats origin.base_address (env.now n) s, s))
    if over_daily_cap p daily_so_far
        then refuse pending origin p (Alert.deposit_over_cap p.fair_txid)
        else check_tvl pending origin p

  accept : Option (ℕ × Deposit) → Payment → Option (ℕ × Deposit) → Action (Unit {0})
  accept pending p none = do
    create_deposit 0 none p DepositStatus.failed (p.amount_sats * sats_to_wei)
    alert env (Alert.unsolicited_deposit p.fair_txid)
  accept pending p (some (_, origin)) =
      if below_minimum p
      then refuse pending origin p (Alert.dust_deposit p.fair_txid)
      else check_daily pending origin p

  unless_seen : Payment → MatchedDeposit → Option (ℕ × Deposit) → Action (Unit {0})
  unless_seen p match (some _) = skip
  unless_seen p match none = accept match.pending p match.origin

  -- The body of the loop of `processBlock`, for an output that pays the bridge.
  pub process_payment : Payment → Action (Unit {0})
  process_payment p = do
    match ← match_deposit p.fair_address
    already ← query fate (λ s. find_one (is_vout p.fair_txid p.fair_vout) s.deposits)
    unless_seen p match already

  payment_of : (height tip txid : ℕ) → TxVout → ℕ → Payment
  payment_of height tip txid v address = record {
    fair_address = address;
    fair_txid = txid;
    fair_vout = v.n;
    fair_block_height = height;
    fair_confirmations = tip - height + 1;
    amount_sats = v.sats;
  }

  process_output : (height tip txid : ℕ) → TxVout → Option ℕ → Action (Unit {0})
  process_output height tip txid v none = skip
  process_output height tip txid v (some address) = do
    known ← look (λ n. env.is_known_address n address)
    if known then process_payment (payment_of height tip txid v address) else skip

  process_vouts : (height tip txid : ℕ) → List TxVout → Action (Unit {0})
  process_vouts height tip txid [] = skip
  process_vouts height tip txid (v ∷ vs) =
      process_output height tip txid v (vout_address v) >> process_vouts height tip txid vs

  process_txs : (height tip : ℕ) → List BlockTx → Action (Unit {0})
  process_txs height tip [] = skip
  process_txs height tip (tx ∷ txs) =
      process_vouts height tip tx.txid tx.vout >> process_txs height tip txs

  -- `processBlock`
  pub process_block : (height tip : ℕ) → Action (Unit {0})
  process_block height tip = ask fate (λ n. env.block_txs n height) >>= process_txs height tip

  readd : ℕ → Deposit → Option ℕ → Option ℕ → Action (Unit {0})
  readd id d (some txid) (some vout) = add_mint_job (record {
    deposit_id = id;
    base_address = d.base_address;
    amount_wei = d.amount_wei;
    fair_txid = txid;
    fair_vout = vout;
  })
  readd id d _ _ = skip

  add_orphans : Collection Deposit → Action (Unit {0})
  add_orphans [] = skip
  add_orphans ((id, d) ∷ c) = readd id d d.fair_txid d.fair_vout >> add_orphans c

  -- `reconcileOrphanDeposits`, 50 documents at a time
  pub reconcile_orphan_deposits : Action (Unit {0})
  reconcile_orphan_deposits =
      act fate (λ n s. (first 50 (find_all (orphaned (env.now n)) s.deposits), s)) >>= add_orphans

  -- The `for` loop over the blocks from `h`, `blocks` of them.
  scan : (blocks h tip : ℕ) → Action (Unit {0})
  scan zero h tip = skip
  scan (suc blocks) h tip = do
    let next = scan blocks (h + 1) tip
    aborted ← look env.aborted
    if aborted then skip else process_block h tip >> modify fate (set_cursor h) >> next

  -- The body of the `try` in `startFairWatcher`.
  pub scan_chain : Action (Unit {0})
  scan_chain = do
    reconcile_orphan_deposits
    tip ← ask fate env.fair_tip
    last ← act fate (λ _ s. upsert_cursor tip s)
    scan (tip - config.fair_confirmations - last) (last + 1) tip

  -- `startFairWatcher`, for a number of rounds; what a round throws is logged.
  pub fair_watcher : ℕ → Action (Unit {0})
  fair_watcher zero = skip
  fair_watcher (suc rounds) = do
    let next = fair_watcher rounds
    aborted ← look env.aborted
    if aborted then skip else catch scan_chain (λ _. skip) >> next
