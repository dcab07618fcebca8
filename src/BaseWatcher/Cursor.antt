-- ===== src/BaseWatcher/Cursor.antt =====
-- The cursor of the base watcher passes no burn that is not recorded
-- (services/bridge/src/workers/base-watcher.ts, `startBaseWatcher`).
use mathlib.Core.List.{Memᴰ}
use faircoin_bridge.BaseWatcher.{
  SeenBurn, add_orphans, add_release_job, base_watcher, reconcile_orphan_withdrawals, scan,
  scan_chain, scan_from, scan_window, seen_burn, set_cursor, upsert_cursor, window_end,
}
use faircoin_bridge.BaseWatcher.Scan.{Among, Seen, process_logs-Seen}
use faircoin_bridge.Effects.{World, ask}
use faircoin_bridge.Effects.Hoare.{
  Ensures, act-Ensures, bind-Ensures, if-Ensures, known-Ensures, look-Ensures, modify-Ensures,
  pre-Ensures, run-Ensures, skip-Ensures, weaken-Ensures,
}
use faircoin_bridge.Effects.Keeps.{
  Keeps, act-Keeps, ask-Keeps, bind-Keeps, catch-Keeps, if-Keeps, modify-Keeps, skip-Keeps,
  then-Ensures, then-Keeps,
}
use faircoin_bridge.Models.Chain.{Log}
use faircoin_bridge.Models.Withdrawal.{Withdrawal}
use faircoin_bridge.Prelude.{
  List, Nat_cases, [], arith, false, inl, inr, leb, ltb, not, refl, some, subst, suc, sym, zero, ℕ,
  ◌&&◌, ◌+◌, ◌<◌, ◌∷◌, ◌≡◌, ◌≤◌, ◌⊎◌,
}
use faircoin_bridge.Prelude.Collection.{Collection}
use faircoin_bridge.Store.{Config, Env, Store}

module _ (config : Config) (env : Env) (OnBase : Log → Type 0) (start : ℕ)
    (running : (n : ℕ) → env.aborted n ≡ false)
    (complete : (n from to : ℕ) (l : Log) (b : SeenBurn)
      → OnBase l
      → seen_burn l ≡ some b
      → from ≤ b.block
      → b.block ≤ to
      → Memᴰ l (env.burn_logs n from to)) where
  -- The burns of Base in the blocks after `start` and up to `k`.
  abbrev pub Past : ℕ → SeenBurn → Type 0
  Past k b = (l : Log) × OnBase l × (seen_burn l ≡ some b) × (start < b.block) × (b.block ≤ k)

  abbrev pub At : ℕ → Store → Type 0
  At k s = Seen (Past k) (some k) s

  -- Every burn behind the cursor is recorded.
  abbrev pub Covered : Store → Type 0
  Covered s = (k : ℕ) × At k s

  scan_window-At :
      (k to : ℕ) → Ensures (At k) (scan_window config env (k + 1) to) (λ _. At to) Covered
  unfolding scan_window set_cursor ask
  scan_window-At k to =
      bind-Ensures (λ (logs : List Log) s. At k s × ((n : ℕ) × (logs ≡ env.burn_logs n (k + 1) to)))
        (act-Ensures _ _ (λ n s p. ((p, (n, refl)), (k, p), (k, p))))
        (λ logs.
          known-Ensures (λ s p. p.1)
            (λ (n, same).
              pre-Ensures (λ s p. p.0)
                (then-Ensures (Seen (λ b. Past k b ⊎ Among logs b) (some k))
                  (weaken-Ensures (λ s p. p) (λ _ s p. p) (λ s p. (k, p))
                    (process_logs-Seen config env (some k) running (Past k) logs))
                  (modify-Ensures _ _ (λ s p.
                    let q : At to (set_cursor to s) =
                      ((λ b h. p.0 b (found logs n same b h)), refl) in
                    (q, (k, ((λ b h. p.0 b (inl h)), p.1)), (to, q)))))))
    where
      found :
          (logs : List Log) (n : ℕ)
          → logs ≡ env.burn_logs n (k + 1) to
          → (b : SeenBurn) → Past to b
          → Past k b ⊎ Among logs b
      found logs n same b (l, on, seen, after, upto) = elim (Nat_cases b.block k) [
        | inl le ↦ inl (l, on, seen, after, le)
        | inr gt ↦ inr (
          l,
          subst (λ x. Memᴰ l x) (sym same) (complete n (k + 1) to l b on seen (omega arith) upto),
          seen,
        )
      ]

  scan-Covered :
      (fuel k safe_tip : ℕ)
      → Ensures (At k) (scan config env fuel (k + 1) safe_tip) (λ _. Covered) Covered
  unfolding scan
  scan-Covered zero k safe_tip = skip-Ensures (λ s p. (k, p))
  scan-Covered (suc fuel) k safe_tip =
      bind-Ensures (λ _. At k) (look-Ensures _ (λ n s p. p))
        λ aborted.
          if-Ensures (leb (k + 1) safe_tip && not aborted)
            (λ _.
              then-Ensures (At (window_end (k + 1) safe_tip)) (scan_window-At k _)
                (scan-Covered fuel _ safe_tip))
            (λ _. skip-Ensures (λ s p. (k, p)))

  scan_from-Covered :
      (safe_tip k : ℕ) → Ensures (At k) (scan_from config env safe_tip k) (λ _. Covered) Covered
  unfolding scan_from
  scan_from-Covered safe_tip k =
      if-Ensures (ltb k safe_tip) (λ _. scan-Covered _ k safe_tip)
        (λ _. skip-Ensures (λ s p. (k, p)))

  upsert_cursor-At : (tip k : ℕ) (s : Store) → At k s → (upsert_cursor tip s ≡ (k, s))
  unfolding upsert_cursor
  upsert_cursor-At tip k s p = rw p.1 refl

  add_orphans-Covered : (c : Collection Withdrawal) → Keeps Covered (add_orphans config env c)
  unfolding add_orphans add_release_job
  add_orphans-Covered [] = skip-Keeps
  add_orphans-Covered ((id, d) ∷ c) =
      then-Keeps (modify-Keeps _ _ (λ s p. p)) (add_orphans-Covered c)

  reconcile-Covered : Keeps Covered (reconcile_orphan_withdrawals config env)
  unfolding reconcile_orphan_withdrawals
  reconcile-Covered = bind-Keeps (act-Keeps _ _ (λ n s p. p)) add_orphans-Covered

  scan_chain-Keeps : Keeps Covered (scan_chain config env)
  unfolding scan_chain
  scan_chain-Keeps = then-Keeps reconcile-Covered (
      bind-Keeps (ask-Keeps _ _) (λ tip.
        bind-Ensures (λ last s. At last s)
          (act-Ensures _ _ (λ n s p.
            let e = upsert_cursor-At tip p.0 s p.1 in
            (
              subst (λ (r : ℕ × Store). At r.0 r.1) (sym e) p.1,
              p,
              subst (λ (r : ℕ × Store). Covered r.1) (sym e) p,
            )))
          (λ last. scan_from-Covered _ last)))

  pub scan_chain-Covered :
      (w : World Store) → Covered w.store → Covered (scan_chain config env w).1.store
  scan_chain-Covered w p = run-Ensures scan_chain-Keeps w p

  base_watcher-Covered : (rounds : ℕ) → Keeps Covered (base_watcher config env rounds)
  unfolding base_watcher
  base_watcher-Covered zero = skip-Keeps
  base_watcher-Covered (suc rounds) =
      bind-Ensures (λ _. Covered) (look-Ensures _ (λ n s p. p))
        λ aborted. if-Keeps aborted skip-Keeps (
          then-Keeps (catch-Keeps scan_chain-Keeps (λ _. skip-Keeps)) (base_watcher-Covered rounds))

  -- While the watcher is not told to stop, and a node's `getLogs` leaves out no burn of the blocks
  -- it is asked for: whatever calls fail, and wherever the process is killed, every burn in the
  -- blocks behind the cursor has a withdrawal after the watcher's rounds if it had one before them.
  pub base_watcher_covers :
      (rounds : ℕ) (w : World Store)
      → Covered w.store
      → Covered (base_watcher config env rounds w).1.store
  base_watcher_covers rounds w p = run-Ensures (base_watcher-Covered rounds) w p
