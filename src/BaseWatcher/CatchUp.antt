-- ===== src/BaseWatcher/CatchUp.antt =====
-- A round of the base watcher in which no call fails
-- (services/bridge/src/workers/base-watcher.ts, `startBaseWatcher`).
use mathlib.Core.List.{Memᴰ}
use faircoin_bridge.BaseWatcher.{
  SeenBurn, accept_burn, add_orphans, add_release_job, create_withdrawal, created, fail_burn,
  insert_unless, insert_withdrawal, is_burn, is_valid_destination, max_log_range, new_withdrawal,
  over_cap, process_log, process_logs, process_new, process_seen, reconcile_orphan_withdrawals,
  release_burn, scan, scan_chain, scan_from, scan_window, seen_burn, set_cursor, upsert_cursor,
  window_end,
}
use faircoin_bridge.BaseWatcher.Cursor.{Covered, Past, scan_chain-Covered}
use faircoin_bridge.BaseWatcher.Scan.{IsRecorded}
use faircoin_bridge.Effects.{Fate, World, act, done, ◌>>=◌}
use faircoin_bridge.Effects.Hoare.{
  bind-Ensures, catch-Ensures, if-Ensures, known-Ensures, look-Ensures, pre-Ensures, pure-Ensures,
  skip-Ensures, weaken-Ensures,
}
use faircoin_bridge.Effects.Keeps.{then-Ensures}
use faircoin_bridge.Effects.Returns.{
  Returns, Returns-done, act-Returns, ask-Returns, modify-Returns, query-Returns,
}
use faircoin_bridge.Models.Chain.{Log}
use faircoin_bridge.Models.Withdrawal.{Withdrawal, WithdrawalStatus}
use faircoin_bridge.Prelude.{
  Bool, List, Option, [], ap, arith, false, is_some, leb, ltb, none, not, refl, some,
  some-injective, subst, suc, sym, true, zero, ℕ, ◌&&◌, ◌+◌, ◌-◌, ◌<◌, ◌∙◌, ◌∷◌, ◌≡◌, ◌≤◌,
}
use faircoin_bridge.Prelude.Collection.{Collection, find_one, next_id}
use faircoin_bridge.Store.{Alert, Config, Env, ReleaseJob, Store, alert, quiet}

abbrev CursorIs : Option ℕ → Store → Type 0
CursorIs c s = s.base_cursor ≡ c

module _ (config : Config) (env : Env) (calm : (n : ℕ) → env.fate n ≡ Fate.fine)
    (running : (n : ℕ) → env.aborted n ≡ false) where
  module _ (c : Option ℕ) where
    -- The burn has no withdrawal yet.
    abbrev IsNew : SeenBurn → Store → Type 0
    IsNew b s = CursorIs c s × (find_one (is_burn b.hash b.index) s.withdrawals ≡ none)

    insert-CursorIs :
        (b : SeenBurn) (address wei sats : ℕ) (st : WithdrawalStatus) (id now : ℕ) (s : Store)
        → IsNew b s
        → CursorIs c (insert_withdrawal id now (new_withdrawal b address wei sats st) s).1
          × ((insert_withdrawal id now (new_withdrawal b address wei sats st) s).0 ≡ some id)
    unfolding insert_withdrawal
    insert-CursorIs b address wei sats st id now s p =
        subst
          (λ o.
            CursorIs c (insert_unless o id now (new_withdrawal b address wei sats st) s).1
            × ((insert_unless o id now (new_withdrawal b address wei sats st) s).0 ≡ some id))
          (sym p.1) (unfold insert_unless in (p.0, refl))

    create_withdrawal-Returns :
        (b : SeenBurn) (address wei sats : ℕ) (st : WithdrawalStatus)
        → Returns
            (IsNew b)
            (create_withdrawal config env (new_withdrawal b address wei sats st))
            (λ _. CursorIs c)
    unfolding create_withdrawal
    create_withdrawal-Returns b address wei sats st =
        bind-Ensures (λ o s. CursorIs c s × (is_some o ≡ true))
          (act-Returns _ _ calm (λ n s p.
            let q = insert-CursorIs b address wei sats st (next_id s.withdrawals) (env.now n) s p in
            (q.0, ap is_some q.1)))
          inserted
      where
        inserted :
            (o : Option ℕ)
            → Returns
                (λ s. CursorIs c s × (is_some o ≡ true))
                (created config env o)
                (λ _. CursorIs c)
        inserted none = known-Ensures (λ s p. p.1) (λ e. absurd (cc))
        inserted (some id) = unfold created in pure-Ensures _ (λ s p. p.0)

    fail_burn-Returns :
        (b : SeenBurn) (address : ℕ) (a : Alert)
        → Returns (IsNew b) (fail_burn config env b address a) (λ _. CursorIs c)
    unfolding fail_burn alert
    fail_burn-Returns b address a =
        then-Ensures (CursorIs c) (create_withdrawal-Returns b address _ _ _)
          (modify-Returns _ _ (λ n. ap quiet (calm n) ∙ still) (λ s p. p))
      where
        still : quiet Fate.fine ≡ Fate.fine
        still = unfold quiet in refl

    add_release_job-Returns :
        (job : ReleaseJob) → Returns (CursorIs c) (add_release_job config env job) (λ _. CursorIs c)
    unfolding add_release_job
    add_release_job-Returns job = modify-Returns _ _ calm (λ s p. p)

    accept_burn-Returns :
        (b : SeenBurn) (address : ℕ)
        → Returns (IsNew b) (accept_burn config env b address) (λ _. CursorIs c)
    unfolding accept_burn release_burn
    accept_burn-Returns b address =
        bind-Ensures (λ _. IsNew b) (act-Returns _ _ calm (λ n s p. p))
          λ daily.
            if-Ensures (over_cap config env b daily) (λ _. fail_burn-Returns b address _)
              (λ _.
                bind-Ensures (λ _. CursorIs c) (create_withdrawal-Returns b address _ _ _)
                  (λ id. add_release_job-Returns _))

    process_new-Returns :
        (b : SeenBurn) (o : Option (ℕ × Withdrawal))
        → Returns
            (λ s. CursorIs c s × (find_one (is_burn b.hash b.index) s.withdrawals ≡ o))
            (process_new config env b o)
            (λ _. CursorIs c)
    unfolding process_new is_valid_destination
    process_new-Returns b (some _) = skip-Ensures (λ s p. p.0)
    process_new-Returns b none =
        bind-Ensures (λ _. IsNew b)
          (catch-Ensures (ask-Returns _ _ calm (λ n s p. p))
            (λ e. pre-Ensures (λ s p. absurd p) (pure-Ensures _ (λ s p. p))))
          (λ valid. if-Ensures valid (λ _. accept_burn-Returns b _) (λ _. fail_burn-Returns b _ _))

    process_log-Returns :
        (l : Log) → Returns (CursorIs c) (process_log config env l) (λ _. CursorIs c)
    unfolding process_log
    process_log-Returns l = go (seen_burn l)
      where
        go :
            (o : Option SeenBurn)
            → Returns (CursorIs c) (process_seen config env o) (λ _. CursorIs c)
        go none = unfold process_seen in skip-Ensures (λ s p. p)
        go (some b) =
            unfold process_seen in
            bind-Ensures
              (λ o s. CursorIs c s × (find_one (is_burn b.hash b.index) s.withdrawals ≡ o))
              (query-Returns _ _ calm (λ s p. (p, refl))) (process_new-Returns b)

    process_logs-Returns :
        (ls : List Log) → Returns (CursorIs c) (process_logs config env ls) (λ _. CursorIs c)
    unfolding process_logs
    process_logs-Returns [] = skip-Ensures (λ s p. p)
    process_logs-Returns (l ∷ ls) =
        bind-Ensures (λ (aborted : Bool). CursorIs c) (look-Ensures _ (λ n s p. p))
          λ aborted.
            if-Ensures aborted (λ _. skip-Ensures (λ s p. p))
              (λ _. then-Ensures (CursorIs c) (process_log-Returns l) (process_logs-Returns ls))

    add_orphans-Returns :
        (d : Collection Withdrawal)
        → Returns (CursorIs c) (add_orphans config env d) (λ _. CursorIs c)
    unfolding add_orphans
    add_orphans-Returns [] = skip-Ensures (λ s p. p)
    add_orphans-Returns ((id, d) ∷ ds) =
        then-Ensures (CursorIs c) (add_release_job-Returns _) (add_orphans-Returns ds)

    reconcile-Returns :
        Returns (CursorIs c) (reconcile_orphan_withdrawals config env) (λ _. CursorIs c)
    unfolding reconcile_orphan_withdrawals
    reconcile-Returns =
        bind-Ensures (λ _. CursorIs c) (act-Returns _ _ calm (λ n s p. p)) add_orphans-Returns

  scan_window-Returns :
      (c : Option ℕ) (from to : ℕ)
      → Returns (CursorIs c) (scan_window config env from to) (λ _. CursorIs (some to))
  unfolding scan_window set_cursor
  scan_window-Returns c from to =
      bind-Ensures (λ _. CursorIs c) (ask-Returns _ _ calm (λ n s p. p))
        λ logs.
          then-Ensures (CursorIs c) (process_logs-Returns c logs)
            (modify-Returns _ _ calm (λ s p. refl))

  window_end-bounds :
      (k safe_tip : ℕ)
      → k < safe_tip
      → (k < window_end (k + 1) safe_tip)
        × (window_end (k + 1) safe_tip ≤ safe_tip)
        × (window_end (k + 1) safe_tip ≤ k + 10)
  unfolding window_end max_log_range
  window_end-bounds k safe_tip h = (ground arith, ground arith, ground arith)

  scan-Returns :
      (fuel k safe_tip : ℕ)
      → k ≤ safe_tip
      → safe_tip ≤ k + fuel
      → Returns
          (CursorIs (some k))
          (scan config env fuel (k + 1) safe_tip)
          (λ _. CursorIs (some safe_tip))
  unfolding scan
  scan-Returns zero k safe_tip below enough = skip-Ensures (λ s p. p ∙ ap some (omega arith))
  scan-Returns (suc fuel) k safe_tip below enough =
      bind-Ensures (λ (aborted : Bool) s. CursorIs (some k) s × (aborted ≡ false))
        (look-Ensures _ (λ n s p. (p, running n)))
        (λ aborted.
          known-Ensures (λ s p. p.1)
            (λ f.
              if-Ensures (leb (k + 1) safe_tip && not aborted)
                (λ t.
                  let ends = window_end-bounds k safe_tip (ground arith) in
                  then-Ensures (CursorIs (some (window_end (k + 1) safe_tip)))
                    (pre-Ensures (λ s p. p.0) (scan_window-Returns (some k) _ _))
                    (scan-Returns fuel _ safe_tip ends.1 (omega (arith, ends.0))))
                (λ t. skip-Ensures (λ s p. p.0 ∙ ap some (ground arith)))))

  -- The cursor has reached the safe tip of some moment.
  abbrev IsReached : Store → Type 0
  IsReached s = (n k : ℕ) × (env.base_tip n - config.base_confirmations ≤ k) × CursorIs (some k) s

  scan_from-Returns :
      (n k : ℕ)
      → Returns
          (CursorIs (some k))
          (scan_from config env (env.base_tip n - config.base_confirmations) k)
          (λ _. IsReached)
  unfolding scan_from
  scan_from-Returns n k =
      if-Ensures (ltb k (env.base_tip n - config.base_confirmations))
        (λ t.
          weaken-Ensures (λ s p. p) (λ _ s p. (n, _, omega arith, p)) (λ s p. p)
            (scan-Returns _ k _ (ground arith) (omega arith)))
        (λ f. skip-Ensures (λ s p. (n, k, ground arith, p)))

  upsert_cursor-CursorIs :
      (tip k : ℕ) (s : Store)
      → CursorIs (some k) s
      → CursorIs (some (upsert_cursor tip s).0) (upsert_cursor tip s).1
  unfolding upsert_cursor
  upsert_cursor-CursorIs tip k s p = rw p refl

  scan_chain-Returns :
      (k : ℕ) → Returns (CursorIs (some k)) (scan_chain config env) (λ _. IsReached)
  unfolding scan_chain
  scan_chain-Returns k = then-Ensures (CursorIs (some k)) (reconcile-Returns (some k)) (
      bind-Ensures (λ tip s. CursorIs (some k) s × ((n : ℕ) × (tip ≡ env.base_tip n)))
        (ask-Returns _ _ calm (λ n s p. (p, (n, refl)))) scan_below)
    where
      scan_below :
          (tip : ℕ)
          → Returns
              (λ s. CursorIs (some k) s × ((n : ℕ) × (tip ≡ env.base_tip n)))
              (act env.fate (λ _ s. upsert_cursor tip s)
                >>= (λ last. scan_from config env (tip - config.base_confirmations) last))
              (λ _. IsReached)
      scan_below tip =
          known-Ensures (λ s p. p.1)
            (λ (n, e).
              subst
                (λ t.
                  Returns (λ s. CursorIs (some k) s × ((m : ℕ) × (tip ≡ env.base_tip m)))
                    (act env.fate (λ _ s. upsert_cursor tip s)
                      >>= (λ last. scan_from config env (t - config.base_confirmations) last))
                    (λ _. IsReached))
                (sym e)
                (bind-Ensures (λ last. CursorIs (some last))
                  (act-Returns _ _ calm (λ m s p. upsert_cursor-CursorIs tip k s p.0))
                  (λ last. scan_from-Returns n last)))

  module _ (OnBase : Log → Type 0) (start : ℕ)
      (complete : (n from to : ℕ) (l : Log) (b : SeenBurn)
        → OnBase l
        → seen_burn l ≡ some b
        → from ≤ b.block
        → b.block ≤ to
        → Memᴰ l (env.burn_logs n from to)) where
    -- A round of the watcher in which no call fails, with no abort and a `getLogs` that leaves out
    -- no burn: it returns, and the fuel of its loop is enough for its cursor to reach the tip that
    -- Base had, less the confirmations; if every burn between `start` and the cursor had a
    -- withdrawal before the round, every burn between `start` and the new cursor has one after it.
    pub scan_chain_catches_up :
        (w : World Store)
        → Covered config env OnBase start running complete w.store
        → ((scan_chain config env w).0 ≡ done tt)
          × ((n k : ℕ) × (env.base_tip n - config.base_confirmations ≤ k)
              × ((scan_chain config env w).1.store.base_cursor ≡ some k)
              × ((b : SeenBurn)
                  → Past config env OnBase start running complete k b
                  → IsRecorded b (scan_chain config env w).1.store))
    scan_chain_catches_up w p =
        let (_, returned, (n, k, tip, at)) =
          Returns-done (λ _. IsReached) (scan_chain-Returns p.0) w p.1.1 in
        let (k', (seen, at')) = scan_chain-Covered config env OnBase start running complete w p in
        (
          returned,
          (
            n,
            k,
            tip,
            at,
            λ b h. seen b (
                subst (λ x. Past config env OnBase start running complete x b)
                  (some-injective _ _ (sym at ∙ at')) h),
          ),
        )
