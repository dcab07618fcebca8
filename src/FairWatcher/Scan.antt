-- ===== src/FairWatcher/Scan.antt =====
-- Which payments the FairCoin watcher has recorded, whatever fails on the way
-- (services/bridge/src/workers/fair-watcher.ts, `processBlock`).
use faircoin_bridge.Effects.{Error}
use faircoin_bridge.Effects.Hoare.{
  Ensures, act-Ensures, ask-Ensures, bind-Ensures, if-Ensures, modify-Ensures, pre-Ensures,
  pure-Ensures, query-Ensures, skip-Ensures, throw-Ensures,
}
use faircoin_bridge.Effects.Keeps.{then-Ensures}
use faircoin_bridge.Effects.Throws.{
  MayThrow, Throws, Throws-Ensures, act-Throws, bind-Throws, catch-Throws, pure-Throws,
  throw-Throws,
}
use faircoin_bridge.FairWatcher.{
  MatchedDeposit, Payment, accept, add_mint, add_mint_job, below_minimum, check_daily, check_tvl,
  confirm, confirm_and_mint, create_deposit, created, find_origin, ignore_duplicate, insert_unless,
  is_open, is_vout, match_deposit, new_deposit, open_intent, over_daily_cap, over_tvl,
  persist_terminal_deposit, post_fee_wei, process_payment, refuse, set_payment, unless_seen,
}
use faircoin_bridge.FairWatcher.Intents.{
  Holds, IsClean, IsTidy, Key, append-Holds, append-Holds_new, append-IsTidy, find_by_id-found,
  find_one-All, update-Holds, update-Holds_new, update-IsTidy,
}
use faircoin_bridge.Models.Deposit.{Deposit, DepositStatus}
use faircoin_bridge.Prelude.{
  Bool, Option, ap, arith, false, is_some, none, refl, some, subst, sym, true, ℕ, ◌≡◌,
}
use faircoin_bridge.Prelude.Collection.{
  Collection, claim_by_id, find_by_id, find_one, next_id, update_by_id,
}
use faircoin_bridge.Store.{Action, Alert, Config, Env, Store, alert}

-- The deposits are tidy, the payments that `P` picks have one, and the cursor has not moved.
abbrev pub Seen : (Key → Type 0) → Option ℕ → Store → Type 0
Seen P cursor s =
    IsTidy s.deposits × ((k : Key) → P k → Holds k s.deposits) × (s.fair_cursor ≡ cursor)

-- MongoDB reports a duplicate only where there is one.
abbrev pub HonestDuplicates : Env → Type 0
HonestDuplicates env = ¬ MayThrow env.fate Error.duplicate_key

failed_shut : is_open DepositStatus.failed ≡ false
unfolding is_open
failed_shut = refl

confirmed_shut : is_open DepositStatus.confirmed ≡ false
unfolding is_open
confirmed_shut = refl

opens : (address : ℕ) (d : Deposit) → open_intent address d ≡ true → is_open d.status ≡ true
unfolding open_intent
opens address d h = ground arith

claim_by_id-open :
    (id : ℕ) (ok : Deposit → Bool) (f : Deposit → Deposit) (c : Collection Deposit) (d : Deposit)
    → find_by_id id c ≡ some d
    → ok d ≡ true
    → (claim_by_id id ok f c).1 ≡ update_by_id id f c
unfolding claim_by_id
claim_by_id-open id ok f c d at is = rw (at, claim_by_id) (rw is refl)

module _ (config : Config) (env : Env) (P : Key → Type 0) (cursor : Option ℕ) (p : Payment) where
  abbrev key : Key
  key = (p.fair_txid, p.fair_vout)

  abbrev Before : Store → Type 0
  Before s = Seen P cursor s

  -- The payment has been recorded.
  abbrev Done : Store → Type 0
  Done s = Seen P cursor s × Holds key s.deposits

  abbrev Records : Action (Unit {0}) → Type 0
  Records m = Ensures Before m (λ _. Done) Before

  -- The open intent of the payment's address.
  abbrev IsFound : Option (ℕ × Deposit) → Store → Type 0
  IsFound intent s = find_one (open_intent p.fair_address) s.deposits ≡ intent

  abbrev Matched : Option (ℕ × Deposit) → Store → Type 0
  Matched intent s = Before s × IsFound intent s

  insert_unless-Done :
      (o : Option (ℕ × Deposit)) (now : ℕ) (d : Deposit) (s : Store)
      → find_one (is_vout p.fair_txid p.fair_vout) s.deposits ≡ o
      → is_open d.status ≡ false
      → is_vout p.fair_txid p.fair_vout d ≡ true
      → Before s
      → Done (insert_unless o (next_id s.deposits) now d s).1
  unfolding insert_unless
  insert_unless-Done (some x) now d s e shut pays h = (h, ap is_some e)
  insert_unless-Done none now d s e shut pays h = (
    (
      append-IsTidy s.deposits (record d { created_at = now }) shut h.0,
      λ k q. append-Holds k s.deposits _ (h.1 k q),
      h.2,
    ),
    append-Holds_new key s.deposits _ (record d { created_at = now }) pays,
  )

  pays_itself :
      (base : ℕ) (hd : Option ℕ) (st : DepositStatus) (wei : ℕ)
      → is_vout p.fair_txid p.fair_vout (new_deposit base hd p st wei) ≡ true
  pays_itself base hd st wei = ground arith

  set_pays :
      (st : DepositStatus) (wei : ℕ) (d : Deposit)
      → is_vout p.fair_txid p.fair_vout (set_payment p st wei d) ≡ true
  set_pays st wei d = ground arith

  -- Where a creation throws a duplicate, the payment has a deposit.
  abbrev Failed : Error → Store → Type 0
  Failed e s = Before s × (e ≡ Error.duplicate_key → Holds key s.deposits)

  create_deposit-Done :
      (base : ℕ) (hd : Option ℕ) (st : DepositStatus) (wei : ℕ)
      → is_open st ≡ false
      → HonestDuplicates env
      → Throws Before (create_deposit config env base hd p st wei) (λ _. Done) Failed Before
  unfolding create_deposit
  create_deposit-Done base hd st wei shut honest =
      bind-Throws (λ _. Done)
        (act-Throws _ _ (λ n s h.
          let after =
            insert_unless-Done _ (env.now n) (new_deposit base hd p st wei) s refl shut
              (pays_itself base hd st wei) h in
          (
            after,
            λ e may. (
              (h, λ same. absurd (honest (subst (MayThrow env.fate) same may))),
              (after.0, λ _. after.1),
            ),
            h,
            after.0,
          )))
        ended
    where
      ended : (o : Option ℕ) → Throws Done (created config env o) (λ _. Done) Failed Before
      ended none = unfold created in throw-Throws _ (λ s h. (h.0, λ _. h.1))
      ended (some id) = unfold created in pure-Throws _ (λ s h. h)

  -- A failed creation is caught, or not.
  create_deposit-Ensures :
      (base : ℕ) (hd : Option ℕ) (st : DepositStatus) (wei : ℕ)
      → is_open st ≡ false
      → HonestDuplicates env
      → Ensures Before (create_deposit config env base hd p st wei) (λ _. Done) Before
  create_deposit-Ensures base hd st wei shut honest =
      Throws-Ensures (λ e s h. h.0) (λ s h. h) (create_deposit-Done base hd st wei shut honest)

  -- The payment is written to the open intent.
  update-Done :
      (id : ℕ) (d : Deposit) (st : DepositStatus) (wei : ℕ) (s : Store)
      → is_open st ≡ false
      → Matched (some (id, d)) s
      → Done (record s { deposits = update_by_id id (set_payment p st wei) s.deposits })
  update-Done id d st wei s shut h =
      let tidy = h.0.0 in
      (
        (
          update-IsTidy id (set_payment p st wei) s.deposits (λ x. shut) tidy,
          λ k q.
              update-Holds (open_intent p.fair_address) (opens p.fair_address)
                (set_payment p st wei) k s.deposits id d tidy.keys tidy.clean h.1 (h.0.1 k q),
          h.0.2,
        ),
        update-Holds_new (open_intent p.fair_address) (opens p.fair_address) (set_payment p st wei)
            key s.deposits id d (set_pays st wei) tidy.keys h.1,
      )

  module _ (honest : HonestDuplicates env) where
    alert-Done : (a : Alert) → Ensures Done (alert env a) (λ _. Done) Before
    unfolding alert
    alert-Done a = modify-Ensures _ _ (λ s h. (h, h.0, h.0))

    persist-Done :
        (intent : Option (ℕ × Deposit)) (base : ℕ) (hd : Option ℕ)
        → Ensures
            (Matched intent)
            (persist_terminal_deposit config env intent base hd p)
            (λ _. Done)
            Before
    unfolding persist_terminal_deposit
    persist-Done (some (id, d)) base hd = modify-Ensures _ _ (λ s h.
        let after = update-Done id d DepositStatus.failed _ s failed_shut h in
        (after, h.0, after.0))
    persist-Done none base hd =
        then-Ensures Done
          (pre-Ensures (λ s h. h.0)
            (create_deposit-Ensures base hd DepositStatus.failed _ failed_shut honest))
          (skip-Ensures (λ s h. h))

    refuse-Done :
        (intent : Option (ℕ × Deposit)) (origin : Deposit) (a : Alert)
        → Ensures (Matched intent) (refuse config env intent origin p a) (λ _. Done) Before
    unfolding refuse
    refuse-Done intent origin a =
        then-Ensures Done (persist-Done intent origin.base_address origin.hd_index) (alert-Done a)

    -- The claim of an intent that was found open succeeds.
    claimed :
        (id : ℕ) (d : Deposit) (s : Store)
        → Matched (some (id, d)) s
        → (claim_by_id id
            (λ d. is_open d.status)
            (set_payment p DepositStatus.confirmed (post_fee_wei config p))
            s.deposits).1
          ≡ update_by_id id
              (set_payment p DepositStatus.confirmed (post_fee_wei config p))
              s.deposits
    claimed id d s h =
        let q = open_intent p.fair_address in
        let at =
          find_by_id-found q (opens p.fair_address) (λ x. x) s.deposits id d h.0.0.keys h.1 in
        let is =
          opens p.fair_address d (find_one-All IsClean q s.deposits (id, d) h.0.0.clean h.1).1 in
        claim_by_id-open id (λ d. is_open d.status) _ s.deposits d at is

    confirm-Done :
        (intent : Option (ℕ × Deposit)) (origin : Deposit)
        → Ensures (Matched intent) (confirm config env intent origin p) (λ _. Done) Before
    unfolding confirm
    confirm-Done (some (id, d)) origin = act-Ensures _ _ (λ n s h.
        let after =
          subst (λ c. Done (record s { deposits = c })) (sym (claimed id d s h))
            (update-Done id d DepositStatus.confirmed _ s confirmed_shut h) in
        (after, h.0, after.0))
    confirm-Done none origin =
        pre-Ensures (λ s h. h.0)
          (catch-Throws
            (bind-Throws (λ _. Done)
              (create_deposit-Done origin.base_address origin.hd_index DepositStatus.confirmed _
                confirmed_shut honest)
              (λ id. pure-Throws _ (λ s h. h)))
            ignored (λ s h. h))
      where
        ignored :
            (e : Error) → Ensures (Failed e) (ignore_duplicate config env e) (λ _. Done) Before
        ignored Error.duplicate_key =
            unfold ignore_duplicate in pure-Ensures _ (λ s h. (h.0, h.1 refl))
        ignored Error.transient = unfold ignore_duplicate in throw-Ensures _ (λ s h. h.0)
        ignored Error.no_such_tx = unfold ignore_duplicate in throw-Ensures _ (λ s h. h.0)
        ignored Error.reverted = unfold ignore_duplicate in throw-Ensures _ (λ s h. h.0)
        ignored Error.non_retryable = unfold ignore_duplicate in throw-Ensures _ (λ s h. h.0)

    add_mint-Done :
        (base : ℕ) (o : Option ℕ) → Ensures Done (add_mint config env base p o) (λ _. Done) Before
    unfolding add_mint add_mint_job
    add_mint-Done base none = skip-Ensures (λ s h. h)
    add_mint-Done base (some id) = modify-Ensures _ _ (λ s h. (h, h.0, h.0))

    module _ (intent : Option (ℕ × Deposit)) (origin : Deposit) where
      confirm_and_mint-Done :
          Ensures (Matched intent) (confirm_and_mint config env intent origin p) (λ _. Done) Before
      unfolding confirm_and_mint
      confirm_and_mint-Done =
          bind-Ensures (λ _. Done) (confirm-Done intent origin) (λ o. add_mint-Done _ o)

      check_tvl-Done :
          Ensures (Matched intent) (check_tvl config env intent origin p) (λ _. Done) Before
      unfolding check_tvl
      check_tvl-Done =
          bind-Ensures (λ _. Matched intent) (ask-Ensures _ _ (λ a s h. (h, h.0)))
            (λ supply.
              bind-Ensures (λ _. Matched intent) (query-Ensures _ _ (λ s h. (h, h.0)))
                (λ in_flight.
                  if-Ensures (over_tvl config env p supply in_flight)
                    (λ _. refuse-Done intent origin _) (λ _. confirm_and_mint-Done)))

      check_daily-Done :
          Ensures (Matched intent) (check_daily config env intent origin p) (λ _. Done) Before
      unfolding check_daily
      check_daily-Done =
          bind-Ensures (λ _. Matched intent) (act-Ensures _ _ (λ n s h. (h, h.0, h.0)))
            (λ daily.
              if-Ensures (over_daily_cap config env p daily) (λ _. refuse-Done intent origin _)
                (λ _. check_tvl-Done))

    accept-Done :
        (intent origin : Option (ℕ × Deposit))
        → Ensures (Matched intent) (accept config env intent p origin) (λ _. Done) Before
    unfolding accept
    accept-Done intent none =
        then-Ensures Done
          (pre-Ensures (λ s h. h.0)
            (create_deposit-Ensures 0 none DepositStatus.failed _ failed_shut honest))
          (alert-Done _)
    accept-Done intent (some (id, d)) =
        if-Ensures (below_minimum config env p) (λ _. refuse-Done intent d _)
          (λ _. check_daily-Done intent d)

    Matching : MatchedDeposit → Store → Type 0
    Matching m s = Matched m.pending s

    match_deposit-Matching :
        Ensures Before (match_deposit config env p.fair_address) Matching Before
    unfolding match_deposit Matching
    match_deposit-Matching =
        bind-Ensures Matched (query-Ensures _ _ (λ s h. ((h, refl), h))) (λ pending.
          bind-Ensures (λ _. Matched pending) (origin pending) (λ o. pure-Ensures _ (λ s h. h)))
      where
        origin :
            (o : Option (ℕ × Deposit))
            → Ensures (Matched o) (find_origin config env p.fair_address o) (λ _. Matched o) Before
        origin none = unfold find_origin in query-Ensures _ _ (λ s h. (h, h.0))
        origin (some x) = unfold find_origin in pure-Ensures _ (λ s h. h)

    pub process_payment-Done : Ensures Before (process_payment config env p) (λ _. Done) Before
    unfolding process_payment Matching
    process_payment-Done = bind-Ensures Matching match_deposit-Matching (λ m.
        bind-Ensures
          (λ o s. Matching m s × (find_one (is_vout p.fair_txid p.fair_vout) s.deposits ≡ o))
          (query-Ensures _ _ (λ s h. ((h, refl), h.0))) (seen m))
      where
        seen :
            (m : MatchedDeposit) (o : Option (ℕ × Deposit))
            → Ensures
                (λ s. Matching m s × (find_one (is_vout p.fair_txid p.fair_vout) s.deposits ≡ o))
                (unless_seen config env p m o)
                (λ _. Done)
                Before
        seen m (some x) = unfold unless_seen in skip-Ensures (λ s h. (h.0.0, ap is_some h.1))
        seen m none =
            unfold unless_seen in pre-Ensures (λ s h. h.0) (accept-Done m.pending m.origin)
