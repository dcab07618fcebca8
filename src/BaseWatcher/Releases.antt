-- ===== src/BaseWatcher/Releases.antt =====
-- What the base watcher asks to be released for a burn
-- (services/bridge/src/workers/base-watcher.ts, `processLog`).
use faircoin_bridge.Amounts.{apply_fee_le, sats_to_wei}
use faircoin_bridge.BaseWatcher.{
  SeenBurn, accept_burn, add_release_job, create_withdrawal, created, fail_burn, insert_unless,
  insert_withdrawal, is_valid_destination, job_of, over_cap, process_log, process_new, process_seen,
  release_burn, released_sats, seen_burn,
}
use faircoin_bridge.BaseWatcher.Scan.{IsRecorded}
use faircoin_bridge.Effects.{Error, World, query, skip}
use faircoin_bridge.Effects.Hoare.{
  Ensures, act-Ensures, bind-Ensures, if-Ensures, modify-Ensures, query-Ensures, run-Ensures,
  skip-Ensures, weaken-Ensures,
}
use faircoin_bridge.Effects.Keeps.{
  Keeps, act-Keeps, ask-Keeps, bind-Keeps, catch-Keeps, modify-Keeps, pure-Keeps, skip-Keeps,
  then-Keeps, throw-Keeps,
}
use faircoin_bridge.Effects.Throws.{
  IsCaused, MayThrow, Throws, Throws-IsCaused, act-Throws, bind-Throws, pure-Throws,
}
use faircoin_bridge.Models.Chain.{Log}
use faircoin_bridge.Models.Withdrawal.{Withdrawal}
use faircoin_bridge.Prelude.{
  List, Option, ap, arith, inl, inr, is_some, none, refl, some, true, ℕ, ◌*◌, ◌/◌, ◌∷◌, ◌≡◌, ◌≤◌,
  ◌⊎◌,
}
use faircoin_bridge.Store.{Action, Alert, Config, Env, ReleaseJob, Store, alert}

-- The job releases this burn: to the address that its sender wrote, with no more than was burned.
pub record IsReleaseOf (env : Env) (b : SeenBurn) (job : ReleaseJob) : Type 0 where
  pub hash : job.base_burn_tx_hash ≡ b.hash
  pub index : job.log_index ≡ b.index
  pub address : job.destination_fair_address ≡ env.address_text b.burn.faircoin_address
  pub backed : job.amount_sats * sats_to_wei ≤ b.burn.amount

released_sats_backed :
    (config : Config) (b : SeenBurn) → released_sats config b * sats_to_wei ≤ b.burn.amount
unfolding released_sats
released_sats_backed config b =
    omega (arith, apply_fee_le (b.burn.amount / sats_to_wei) config.bridge_fee_bps)

module _ (config : Config) (env : Env) (before : List ReleaseJob) where
  -- No release, or one of this burn, has been asked for.
  abbrev pub Queued : Option SeenBurn → Store → Type 0
  Queued o s =
      (s.release_jobs ≡ before)
      ⊎ ((b : SeenBurn) × (job : ReleaseJob) × (o ≡ some b)
          × IsReleaseOf env b job
          × (s.release_jobs ≡ job ∷ before))

  abbrev Unqueued : Store → Type 0
  Unqueued s = s.release_jobs ≡ before

  insert-Unqueued :
      (o : Option (ℕ × Withdrawal)) (id now : ℕ) (d : Withdrawal) (s : Store)
      → Unqueued s
      → Unqueued (insert_unless o id now d s).1
  unfolding insert_unless
  insert-Unqueued (some _) id now d s p = p
  insert-Unqueued none id now d s p = p

  create_withdrawal-Unqueued : (d : Withdrawal) → Keeps Unqueued (create_withdrawal config env d)
  unfolding create_withdrawal insert_withdrawal
  create_withdrawal-Unqueued d =
      bind-Keeps (act-Keeps _ _ (λ n s p. insert-Unqueued _ _ _ _ s p)) inserted
    where
      inserted : (o : Option ℕ) → Keeps Unqueued (created config env o)
      inserted none = unfold created in throw-Keeps _
      inserted (some id) = unfold created in pure-Keeps _

  fail_burn-Unqueued :
      (b : SeenBurn) (address : ℕ) (a : Alert) → Keeps Unqueued (fail_burn config env b address a)
  unfolding fail_burn alert
  fail_burn-Unqueued b address a =
      then-Keeps (create_withdrawal-Unqueued _) (modify-Keeps _ _ (λ s p. p))

  abbrev Queues : SeenBurn → {A : Type 0} → Action A → Type 0
  Queues b m = Ensures Unqueued m (λ _. Queued (some b)) (Queued (some b))

  none_queued : (b : SeenBurn) {A : Type 0} {m : Action A} → Keeps Unqueued m → Queues b m
  none_queued b k = weaken-Ensures (λ s p. p) (λ _ s p. inl p) (λ s p. inl p) k

  add_release_job-Queued :
      (b : SeenBurn) (job : ReleaseJob)
      → IsReleaseOf env b job
      → Queues b (add_release_job config env job)
  unfolding add_release_job
  add_release_job-Queued b job h = modify-Ensures _ _ (λ s p. (
    inr (b, job, refl, h, ap (λ l. job ∷ l) p),
    inl p,
    inr (b, job, refl, h, ap (λ l. job ∷ l) p),
  ))

  release_burn-Queued :
      (b : SeenBurn)
      → Queues b (release_burn config env b (env.address_text b.burn.faircoin_address))
  unfolding release_burn job_of
  release_burn-Queued b =
      bind-Ensures (λ _. Unqueued)
        (weaken-Ensures (λ s p. p) (λ _ s p. p) (λ s p. inl p) (create_withdrawal-Unqueued _))
        (λ id. add_release_job-Queued b _ (record {
          hash = refl;
          index = refl;
          address = refl;
          backed = released_sats_backed config b;
        }))

  process_new-Queued :
      (b : SeenBurn) (o : Option (ℕ × Withdrawal)) → Queues b (process_new config env b o)
  unfolding process_new is_valid_destination accept_burn
  process_new-Queued b (some _) = none_queued b skip-Keeps
  process_new-Queued b none =
      bind-Ensures (λ _. Unqueued)
        (weaken-Ensures (λ s p. p) (λ _ s p. p) (λ s p. inl p)
          (catch-Keeps (ask-Keeps _ _) (λ _. pure-Keeps _)))
        (λ valid.
          if-Ensures valid
            (λ _.
              bind-Ensures (λ _. Unqueued) (act-Ensures _ _ (λ n s p. (p, inl p, inl p)))
                (λ daily.
                  if-Ensures (over_cap config env b daily)
                    (λ _. none_queued b (fail_burn-Unqueued b _ _)) (λ _. release_burn-Queued b)))
            (λ _. none_queued b (fail_burn-Unqueued b _ _)))

  process_seen-Queued :
      (o : Option SeenBurn)
      → Ensures Unqueued (process_seen config env o) (λ _. Queued o) (Queued o)
  unfolding process_seen
  process_seen-Queued none = skip-Ensures (λ s p. inl p)
  process_seen-Queued (some b) =
      bind-Ensures (λ _. Unqueued) (query-Ensures _ _ (λ s p. (p, inl p))) (process_new-Queued b)

module _ (config : Config) (env : Env) where
  -- However the watcher ends on a log, it has asked for no release, or for one: of the burn that the
  -- log reports, under that burn's transaction and index, to the address that the burn names, and
  -- of at most the amount that was burned.
  pub process_log_releases :
      (l : Log) (w : World Store)
      → Queued config env w.store.release_jobs (seen_burn l) (process_log config env l w).1.store
  unfolding process_log
  process_log_releases l w =
      run-Ensures (process_seen-Queued config env w.store.release_jobs (seen_burn l)) w refl

  -- A log whose burn has a withdrawal changes nothing, however the watcher ends on it, and the
  -- watcher throws nothing on it but what a call of its own threw.
  pub process_log_again :
      (l : Log) (b : SeenBurn) (w : World Store)
      → seen_burn l ≡ some b
      → IsRecorded b w.store
      → ((process_log config env l w).1.store ≡ w.store)
        × IsCaused env.fate (process_log config env l w).0
  unfolding process_log
  process_log_again l b w seen old = rw seen (Throws-IsCaused env.fate (again b) w (refl, old))
    where
      Same : Store → Type 0
      Same s = s ≡ w.store

      Fails : Error → Store → Type 0
      Fails e s = Same s × MayThrow env.fate e

      again :
          (b : SeenBurn)
          → Throws
              (λ s. Same s × IsRecorded b s)
              (process_seen config env (some b))
              (λ _. Same)
              Fails
              Same
      again b =
          unfold process_seen query in
          bind-Throws (λ o s. Same s × (is_some o ≡ true))
            (act-Throws _ _ (λ n s p. (p, (λ e may. ((p.0, may), (p.0, may))), p.0, p.0))) known
        where
          known :
              (o : Option (ℕ × Withdrawal))
              → Throws
                  (λ s. Same s × (is_some o ≡ true))
                  (process_new config env b o)
                  (λ _. Same)
                  Fails
                  Same
          known (some _) = unfold process_new skip in pure-Throws _ (λ s p. p.0)
          known none = record { runs = λ w p. absurd (cc (p.1)) }
