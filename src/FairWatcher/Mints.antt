-- ===== src/FairWatcher/Mints.antt =====
-- What the FairCoin watcher asks to be minted for a payment
-- (services/bridge/src/workers/fair-watcher.ts, `processBlock`).
use faircoin_bridge.Amounts.{apply_fee_le, sats_to_wei}
use faircoin_bridge.Effects.{Error, World, ask}
use faircoin_bridge.Effects.Hoare.{
  Ensures, act-Ensures, bind-Ensures, if-Ensures, known-Ensures, modify-Ensures, pre-Ensures,
  query-Ensures, run-Ensures, skip-Ensures, weaken-Ensures,
}
use faircoin_bridge.Effects.Keeps.{
  Keeps, act-Keeps, bind-Keeps, catch-Keeps, modify-Keeps, pure-Keeps, query-Keeps, skip-Keeps,
  then-Keeps, throw-Keeps,
}
use faircoin_bridge.FairWatcher.{
  MatchedDeposit, Payment, accept, add_mint, add_mint_job, below_minimum, check_daily, check_tvl,
  confirm, confirm_and_mint, create_deposit, created, daily_sats, find_origin, ignore_duplicate,
  in_flight_wei, insert_unless, job_of, match_deposit, max_tvl_wei, over_daily_cap, over_tvl,
  persist_terminal_deposit, post_fee_wei, process_payment, refuse, unless_seen,
}
use faircoin_bridge.Models.Deposit.{Deposit, DepositStatus}
use faircoin_bridge.Prelude.{
  Option, ap, arith, inl, inr, ltb, none, refl, some, ℕ, ◌*◌, ◌+◌, ◌∷◌, ◌≡◌, ◌≤◌, ◌⊎◌,
}
use faircoin_bridge.Store.{Action, Alert, Config, Env, MintJob, Store, alert}

-- The job mints for this payment, no more than was paid in, and within the caps that hold at the
-- moments at which the watcher reads the clock and the supply.
pub record IsMintOf (config : Config) (env : Env) (p : Payment) (s : Store) (job : MintJob)
    : Type 0 where
  pub txid : job.fair_txid ≡ p.fair_txid
  pub vout : job.fair_vout ≡ p.fair_vout
  pub backed : job.amount_wei ≤ p.amount_sats * sats_to_wei
  pub at_least : config.min_deposit_sats ≤ p.amount_sats
  pub daily :
      (n : ℕ) × (daily_sats job.base_address (env.now n) s + p.amount_sats
        ≤ config.per_address_daily_cap_sats)
  pub tvl :
      (n : ℕ) × (env.total_supply n + in_flight_wei s + job.amount_wei ≤ max_tvl_wei config env)

module _ (config : Config) (env : Env) (p : Payment) (before : Store) where
  -- No mint, or one of this payment, has been asked for.
  abbrev pub Queued : Store → Type 0
  Queued s =
      (s.mint_jobs ≡ before.mint_jobs)
      ⊎ ((job : MintJob) × IsMintOf config env p before job
          × (s.mint_jobs ≡ job ∷ before.mint_jobs))

  abbrev Unqueued : Store → Type 0
  Unqueued s = s.mint_jobs ≡ before.mint_jobs

  abbrev Unchanged : Store → Type 0
  Unchanged s = s ≡ before

  abbrev Queues : {A : Type 0} → Action A → Type 0
  Queues m = Ensures Unchanged m (λ _. Queued) Queued

  none_queued : {A : Type 0} {m : Action A} → Keeps Unqueued m → Queues m
  none_queued k = weaken-Ensures (λ s e. ap (λ t. t.mint_jobs) e) (λ _ s e. inl e) (λ s e. inl e) k

  insert-Unqueued :
      (o : Option (ℕ × Deposit)) (id now : ℕ) (d : Deposit) (s : Store)
      → Unqueued s
      → Unqueued (insert_unless o id now d s).1
  unfolding insert_unless
  insert-Unqueued (some _) id now d s e = e
  insert-Unqueued none id now d s e = e

  create_deposit-Unqueued :
      (base : ℕ) (hd : Option ℕ) (st : DepositStatus) (wei : ℕ)
      → Keeps Unqueued (create_deposit config env base hd p st wei)
  unfolding create_deposit
  create_deposit-Unqueued base hd st wei =
      bind-Keeps (act-Keeps _ _ (λ n s e. insert-Unqueued _ _ _ _ s e)) inserted
    where
      inserted : (o : Option ℕ) → Keeps Unqueued (created config env o)
      inserted none = unfold created in throw-Keeps _
      inserted (some id) = unfold created in pure-Keeps _

  alert-Unqueued : (a : Alert) → Keeps Unqueued (alert env a)
  unfolding alert
  alert-Unqueued a = modify-Keeps _ _ (λ s e. e)

  refuse-Unqueued :
      (intent : Option (ℕ × Deposit)) (origin : Deposit) (a : Alert)
      → Keeps Unqueued (refuse config env intent origin p a)
  unfolding refuse
  refuse-Unqueued intent origin a = then-Keeps (persisted intent) (alert-Unqueued a)
    where
      persisted :
          (o : Option (ℕ × Deposit))
          → Keeps Unqueued
              (persist_terminal_deposit config env o origin.base_address origin.hd_index p)
      persisted (some (id, d)) = unfold persist_terminal_deposit in modify-Keeps _ _ (λ s e. e)
      persisted none =
          unfold persist_terminal_deposit in then-Keeps (create_deposit-Unqueued _ _ _ _) skip-Keeps

  confirm-Unqueued :
      (intent : Option (ℕ × Deposit)) (origin : Deposit)
      → Keeps Unqueued (confirm config env intent origin p)
  unfolding confirm
  confirm-Unqueued (some (id, d)) origin = act-Keeps _ _ (λ n s e. e)
  confirm-Unqueued none origin =
      catch-Keeps (bind-Keeps (create_deposit-Unqueued _ _ _ _) (λ id. pure-Keeps _)) ignored
    where
      ignored : (e : Error) → Keeps Unqueued (ignore_duplicate config env e)
      ignored Error.duplicate_key = unfold ignore_duplicate in pure-Keeps _
      ignored Error.transient = unfold ignore_duplicate in throw-Keeps _
      ignored Error.no_such_tx = unfold ignore_duplicate in throw-Keeps _
      ignored Error.reverted = unfold ignore_duplicate in throw-Keeps _
      ignored Error.non_retryable = unfold ignore_duplicate in throw-Keeps _

  post_fee_backed : post_fee_wei config p ≤ p.amount_sats * sats_to_wei
  unfolding post_fee_wei
  post_fee_backed = apply_fee_le (p.amount_sats * sats_to_wei) config.bridge_fee_bps

  -- The caps that the watcher has checked before it confirms.
  abbrev Allowed : Deposit → Type 0
  Allowed origin =
      (config.min_deposit_sats ≤ p.amount_sats)
      × ((n : ℕ) × (daily_sats origin.base_address (env.now n) before + p.amount_sats
            ≤ config.per_address_daily_cap_sats))
      × ((n : ℕ) × (env.total_supply n + in_flight_wei before + post_fee_wei config p
            ≤ max_tvl_wei config env))

  add_mint_job-Queued :
      (job : MintJob)
      → IsMintOf config env p before job
      → Ensures Unqueued (add_mint_job config env job) (λ _. Queued) Queued
  unfolding add_mint_job
  add_mint_job-Queued job h =
      modify-Ensures _ _
        (λ s e. (inr (job, h, ap (λ l. job ∷ l) e), inl e, inr (job, h, ap (λ l. job ∷ l) e)))

  add_mint-Queued :
      (origin : Deposit) (o : Option ℕ)
      → Allowed origin
      → Ensures Unqueued (add_mint config env origin.base_address p o) (λ _. Queued) Queued
  unfolding add_mint job_of
  add_mint-Queued origin none h = skip-Ensures (λ s e. inl e)
  add_mint-Queued origin (some id) (least, daily, tvl) = add_mint_job-Queued _ (record {
    txid = refl;
    vout = refl;
    backed = post_fee_backed;
    at_least = least;
    daily = daily;
    tvl = tvl;
  })

  confirm_and_mint-Queued :
      (intent : Option (ℕ × Deposit)) (origin : Deposit)
      → Allowed origin
      → Ensures Unqueued (confirm_and_mint config env intent origin p) (λ _. Queued) Queued
  unfolding confirm_and_mint
  confirm_and_mint-Queued intent origin allowed =
      bind-Ensures (λ _. Unqueued)
        (weaken-Ensures (λ s e. e) (λ _ s e. e) (λ s e. inl e) (confirm-Unqueued intent origin))
        (λ o. add_mint-Queued origin o allowed)

  check_tvl-Queued :
      (intent : Option (ℕ × Deposit)) (origin : Deposit) (m : ℕ)
      → config.min_deposit_sats ≤ p.amount_sats
      → daily_sats origin.base_address (env.now m) before + p.amount_sats
        ≤ config.per_address_daily_cap_sats
      → Queues (check_tvl config env intent origin p)
  unfolding check_tvl over_tvl ask
  check_tvl-Queued intent origin m least daily =
      bind-Ensures (λ supply s. Unchanged s × ((n : ℕ) × (supply ≡ env.total_supply n)))
        (act-Ensures _ _
          (λ n s e. ((e, (n, refl)), inl (ap (λ t. t.mint_jobs) e), inl (ap (λ t. t.mint_jobs) e))))
        (λ supply.
          known-Ensures (λ s q. q.1)
            (λ (n, same).
              bind-Ensures (λ flight s. Unchanged s × (flight ≡ in_flight_wei before))
                (query-Ensures _ _
                  (λ s q. ((q.0, ap in_flight_wei q.0), inl (ap (λ t. t.mint_jobs) q.0))))
                (λ flight.
                  known-Ensures (λ s q. q.1)
                    (λ total.
                      pre-Ensures (λ s q. q.0)
                        (if-Ensures
                          (ltb (max_tvl_wei config env) (supply + flight + post_fee_wei config p))
                          (λ _. none_queued (refuse-Unqueued intent origin _))
                          (λ f.
                            pre-Ensures (λ s e. ap (λ t. t.mint_jobs) e)
                              (confirm_and_mint-Queued intent origin
                                (least, (m, daily), (n, ground (arith, same, total))))))))))

  check_daily-Queued :
      (intent : Option (ℕ × Deposit)) (origin : Deposit)
      → config.min_deposit_sats ≤ p.amount_sats
      → Queues (check_daily config env intent origin p)
  unfolding check_daily over_daily_cap
  check_daily-Queued intent origin least =
      bind-Ensures
        (λ total s.
          Unchanged s × ((n : ℕ) × (total ≡ daily_sats origin.base_address (env.now n) before)))
        (act-Ensures _ _ (λ n s e. (
          (e, (n, ap (λ t. daily_sats origin.base_address (env.now n) t) e)),
          inl (ap (λ t. t.mint_jobs) e),
          inl (ap (λ t. t.mint_jobs) e),
        )))
        (λ total.
          known-Ensures (λ s q. q.1)
            (λ (n, same).
              pre-Ensures (λ s q. q.0)
                (if-Ensures (ltb config.per_address_daily_cap_sats (total + p.amount_sats))
                  (λ _. none_queued (refuse-Unqueued intent origin _))
                  (λ f. check_tvl-Queued intent origin n least (ground (arith, same))))))

  accept-Queued : (intent found : Option (ℕ × Deposit)) → Queues (accept config env intent p found)
  unfolding accept below_minimum
  accept-Queued intent none =
      none_queued (then-Keeps (create_deposit-Unqueued _ _ _ _) (alert-Unqueued _))
  accept-Queued intent (some (_, origin)) =
      if-Ensures (ltb p.amount_sats config.min_deposit_sats)
        (λ _. none_queued (refuse-Unqueued intent origin _))
        (λ f. check_daily-Queued intent origin (ground arith))

  unless_seen-Queued :
      (match : MatchedDeposit) (already : Option (ℕ × Deposit))
      → Queues (unless_seen config env p match already)
  unfolding unless_seen
  unless_seen-Queued match (some _) = none_queued skip-Keeps
  unless_seen-Queued match none = accept-Queued match.pending match.origin

  quietly :
      {A : Type 0} {m : Action A} → Keeps Unchanged m → Ensures Unchanged m (λ _. Unchanged) Queued
  quietly k = weaken-Ensures (λ s e. e) (λ _ s e. e) (λ s e. inl (ap (λ t. t.mint_jobs) e)) k

  match_deposit-Unchanged : (address : ℕ) → Keeps Unchanged (match_deposit config env address)
  unfolding match_deposit
  match_deposit-Unchanged address =
      bind-Keeps (query-Keeps _ _) (λ intent. bind-Keeps (origin intent) (λ found. pure-Keeps _))
    where
      origin : (o : Option (ℕ × Deposit)) → Keeps Unchanged (find_origin config env address o)
      origin none = unfold find_origin in query-Keeps _ _
      origin (some _) = unfold find_origin in pure-Keeps _

  process_payment-Queued : Queues (process_payment config env p)
  unfolding process_payment
  process_payment-Queued =
      bind-Ensures (λ _. Unchanged) (quietly (match_deposit-Unchanged p.fair_address))
        (λ match.
          bind-Ensures (λ _. Unchanged) (quietly (query-Keeps _ _))
            (λ already. unless_seen-Queued match already))

module _ (config : Config) (env : Env) (p : Payment) where
  -- However the watcher ends on a payment, it has asked for no mint, or for one: of that payment,
  -- of at most what was paid, for a payment that is at least the minimum, keeps its receiver within
  -- the daily cap and keeps the supply and what is in flight within the TVL cap.
  pub process_payment_mints :
      (w : World Store) → Queued config env p w.store (process_payment config env p w).1.store
  process_payment_mints w = run-Ensures (process_payment-Queued config env p w.store) w refl
