-- ===== src/FairWatcher/Cursor.antt =====
-- The cursor of the FairCoin watcher passes no payment that has no deposit
-- (services/bridge/src/workers/fair-watcher.ts, `startFairWatcher`).
use mathlib.Core.List.{Memᴰ}
use mathlib.Core.List.Memᴰ
use faircoin_bridge.Effects.{World, ask, modify}
use faircoin_bridge.Effects.Hoare.{
  Ensures, act-Ensures, bind-Ensures, if-Ensures, known-Ensures, look-Ensures, modify-Ensures,
  run-Ensures, skip-Ensures, weaken-Ensures,
}
use faircoin_bridge.Effects.Keeps.{
  Keeps, act-Keeps, ask-Keeps, bind-Keeps, catch-Keeps, if-Keeps, modify-Keeps, skip-Keeps,
  then-Ensures, then-Keeps,
}
use faircoin_bridge.FairWatcher.{
  add_mint_job, add_orphans, fair_watcher, payment_of, process_block, process_output, process_txs,
  process_vouts, readd, reconcile_orphan_deposits, scan, scan_chain, set_cursor, upsert_cursor,
  vout_address,
}
use faircoin_bridge.FairWatcher.Intents.{Holds, Key}
use faircoin_bridge.FairWatcher.Scan.{HonestDuplicates, Seen, process_payment-Done}
use faircoin_bridge.Models.Chain.{BlockTx, TxVout}
use faircoin_bridge.Models.Deposit.{Deposit}
use faircoin_bridge.Prelude.{
  List, Nat_cases, Option, [], arith, inl, inr, none, not_both, refl, some, some-injective, subst,
  suc, sym, true, zero, ℕ, ◌+◌, ◌<◌, ◌∷◌, ◌≡◌, ◌≤◌, ◌⊎◌,
}
use faircoin_bridge.Prelude.Collection.{Collection}
use faircoin_bridge.Store.{Config, Env, Store}

module _ (Known : ℕ → Type 0) where
  -- The output of this transaction pays a known address.
  abbrev pub Pays : (txid : ℕ) → TxVout → Option ℕ → Key → Type 0
  Pays txid v o k = (a : ℕ) × (o ≡ some a) × Known a × (k ≡ (txid, v.n))

  -- One of the outputs pays a known address.
  abbrev pub AmongVouts : (txid : ℕ) → List TxVout → Key → Type 0
  AmongVouts txid vs k = (v : TxVout) × Memᴰ v vs × Pays txid v (vout_address v) k

  abbrev pub AmongTxs : List BlockTx → Key → Type 0
  AmongTxs txs k = (tx : BlockTx) × Memᴰ tx txs × AmongVouts tx.txid tx.vout k

module _ (config : Config) (env : Env) (Known : ℕ → Type 0)
    (always : (n a : ℕ) → Known a → env.is_known_address n a ≡ true) (honest : HonestDuplicates env)
    (cursor : Option ℕ) where
  process_output-Seen :
      (height tip txid : ℕ) (P : Key → Type 0) (v : TxVout) (o : Option ℕ)
      → Ensures
          (Seen P cursor)
          (process_output config env height tip txid v o)
          (λ _. Seen (λ k. P k ⊎ Pays Known txid v o k) cursor)
          (Seen P cursor)
  unfolding process_output payment_of
  process_output-Seen height tip txid P v none =
      skip-Ensures
        (λ s p. (p.0, (λ k h. elim h [ inl x ↦ p.1 k x | inr (a, e, r, same) ↦ absurd (cc) ]), p.2))
  process_output-Seen height tip txid P v (some address) =
      bind-Ensures (λ known s. Seen P cursor s × (Known address → known ≡ true))
        (look-Ensures _ (λ n s p. (p, always n address)))
        (λ known.
          if-Ensures known
            (λ t.
              weaken-Ensures (λ s p. p.0)
                (λ _ s p. (
                  p.0.0,
                  (λ k h. elim h [
                    | inl x ↦ p.0.1 k x
                    | inr (a, e, r, same) ↦ subst (λ y. Holds y s.deposits) (sym same) p.1
                  ]),
                  p.0.2,
                ))
                (λ s p. p) (process_payment-Done config env P cursor _ honest))
            (λ f. skip-Ensures (λ s p. (
              p.0.0,
              (λ k h. elim h [
                | inl x ↦ p.0.1 k x
                | inr (a, e, r, same) ↦
                    absurd (not_both (p.1 (subst Known (sym (some-injective _ _ e)) r)) f)
              ]),
              p.0.2,
            ))))

  process_vouts-Seen :
      (height tip txid : ℕ) (P : Key → Type 0) (vs : List TxVout)
      → Ensures
          (Seen P cursor)
          (process_vouts config env height tip txid vs)
          (λ _. Seen (λ k. P k ⊎ AmongVouts Known txid vs k) cursor)
          (Seen P cursor)
  unfolding process_vouts
  process_vouts-Seen height tip txid P [] = skip-Ensures (λ s p.
      (p.0, (λ k h. elim h [ inl x ↦ p.1 k x | inr (v, m, r) ↦ absurd (Memᴰ.not-nil m) ]), p.2))
  process_vouts-Seen height tip txid P (v ∷ vs) =
      then-Ensures (Seen one cursor) (process_output-Seen height tip txid P v (vout_address v)) (
        weaken-Ensures (λ s p. p) (λ _ s p. (p.0, (λ k h. p.1 k (regroup k h)), p.2))
          (λ s p. (p.0, (λ k x. p.1 k (inl x)), p.2)) (process_vouts-Seen height tip txid one vs))
    where
      one : Key → Type 0
      one k = P k ⊎ Pays Known txid v (vout_address v) k

      regroup :
          (k : Key) → P k ⊎ AmongVouts Known txid (v ∷ vs) k → one k ⊎ AmongVouts Known txid vs k
      regroup k (inl x) = inl (inl x)
      regroup k (inr (w, m, h)) = elim (Memᴰ.cases_cons m) [
        | inl same ↦ inl (inr (subst (λ y. Pays Known txid y (vout_address y) k) same h))
        | inr m' ↦ inr (w, m', h)
      ]

  process_txs-Seen :
      (height tip : ℕ) (P : Key → Type 0) (txs : List BlockTx)
      → Ensures
          (Seen P cursor)
          (process_txs config env height tip txs)
          (λ _. Seen (λ k. P k ⊎ AmongTxs Known txs k) cursor)
          (Seen P cursor)
  unfolding process_txs
  process_txs-Seen height tip P [] = skip-Ensures (λ s p.
      (p.0, (λ k h. elim h [ inl x ↦ p.1 k x | inr (t, m, r) ↦ absurd (Memᴰ.not-nil m) ]), p.2))
  process_txs-Seen height tip P (tx ∷ txs) =
      then-Ensures (Seen one cursor) (process_vouts-Seen height tip tx.txid P tx.vout) (
        weaken-Ensures (λ s p. p) (λ _ s p. (p.0, (λ k h. p.1 k (regroup k h)), p.2))
          (λ s p. (p.0, (λ k x. p.1 k (inl x)), p.2)) (process_txs-Seen height tip one txs))
    where
      one : Key → Type 0
      one k = P k ⊎ AmongVouts Known tx.txid tx.vout k

      regroup : (k : Key) → P k ⊎ AmongTxs Known (tx ∷ txs) k → one k ⊎ AmongTxs Known txs k
      regroup k (inl x) = inl (inl x)
      regroup k (inr (t, m, h)) = elim (Memᴰ.cases_cons m) [
        | inl same ↦ inl (inr (subst (λ y. AmongVouts Known y.txid y.vout k) same h))
        | inr m' ↦ inr (t, m', h)
      ]

module _ (config : Config) (env : Env) (Known : ℕ → Type 0) (chain : ℕ → List BlockTx) (start : ℕ)
    (always : (n a : ℕ) → Known a → env.is_known_address n a ≡ true)
    (settled : (n h : ℕ) → env.block_txs n h ≡ chain h) (honest : HonestDuplicates env) where
  -- The payments to known addresses in the blocks after `start` and up to `k`.
  abbrev pub Past : ℕ → Key → Type 0
  Past k p = (h : ℕ) × (start < h) × (h ≤ k) × AmongTxs Known (chain h) p

  abbrev pub At : ℕ → Store → Type 0
  At k s = Seen (Past k) (some k) s

  -- Every payment behind the cursor has a deposit.
  abbrev pub Covered : Store → Type 0
  Covered s = (k : ℕ) × At k s

  -- The cursor is still at `k`, and the payments of the next block have deposits too.
  abbrev Ahead : ℕ → Store → Type 0
  Ahead k s = Seen (λ p. Past k p ⊎ AmongTxs Known (chain (k + 1)) p) (some k) s

  process_block-Ahead :
      (k tip : ℕ) → Ensures (At k) (process_block config env (k + 1) tip) (λ _. Ahead k) Covered
  unfolding process_block ask
  process_block-Ahead k tip =
      bind-Ensures (λ (txs : List BlockTx) s. At k s × (txs ≡ chain (k + 1)))
        (act-Ensures _ _ (λ n s p. ((p, settled n (k + 1)), (k, p), (k, p))))
        (λ txs.
          known-Ensures (λ s p. p.1)
            (λ same.
              weaken-Ensures (λ s p. p.0)
                (λ _ s p. subst (λ y. Seen (λ q. Past k q ⊎ AmongTxs Known y q) (some k) s) same p)
                (λ s p. (k, p))
                (process_txs-Seen config env Known always honest (some k) (k + 1) tip (Past k)
                  txs)))

  set_cursor-At :
      (k : ℕ) → Ensures (Ahead k) (modify env.fate (set_cursor (k + 1))) (λ _. At (k + 1)) Covered
  unfolding set_cursor
  set_cursor-At k = modify-Ensures _ _ (λ s p.
      let q : At (k + 1) (set_cursor (k + 1) s) = (p.0, (λ x h. p.1 x (found x h)), refl) in
      (q, (k, (p.0, (λ x h. p.1 x (inl h)), p.2)), (k + 1, q)))
    where
      found : (x : Key) → Past (k + 1) x → Past k x ⊎ AmongTxs Known (chain (k + 1)) x
      found x (h, after, upto, among) = elim (Nat_cases h k) [
        | inl le ↦ inl (h, after, le, among)
        | inr gt ↦
            let last : h ≡ k + 1 = omega arith in
            inr (subst (λ y. AmongTxs Known (chain y) x) last among)
      ]

  scan-Covered :
      (blocks k tip : ℕ)
      → Ensures (At k) (scan config env blocks (k + 1) tip) (λ _. Covered) Covered
  unfolding scan
  scan-Covered zero k tip = skip-Ensures (λ s p. (k, p))
  scan-Covered (suc blocks) k tip =
      bind-Ensures (λ _. At k) (look-Ensures _ (λ n s p. p))
        (λ aborted.
          if-Ensures aborted (λ _. skip-Ensures (λ s p. (k, p)))
            (λ _.
              then-Ensures (At (k + 1))
                (then-Ensures (Ahead k) (process_block-Ahead k tip) (set_cursor-At k))
                (scan-Covered blocks (k + 1) tip)))

  upsert_cursor-At : (tip k : ℕ) (s : Store) → At k s → (upsert_cursor tip s ≡ (k, s))
  unfolding upsert_cursor
  upsert_cursor-At tip k s p = rw p.2 refl

  readd-Covered :
      (id : ℕ) (d : Deposit) (txid vout : Option ℕ)
      → Keeps Covered (readd config env id d txid vout)
  unfolding readd add_mint_job
  readd-Covered id d none vout = skip-Keeps
  readd-Covered id d (some txid) none = skip-Keeps
  readd-Covered id d (some txid) (some vout) = modify-Keeps _ _ (λ s p. p)

  add_orphans-Covered : (c : Collection Deposit) → Keeps Covered (add_orphans config env c)
  unfolding add_orphans
  add_orphans-Covered [] = skip-Keeps
  add_orphans-Covered ((id, d) ∷ c) = then-Keeps (readd-Covered id d _ _) (add_orphans-Covered c)

  reconcile-Covered : Keeps Covered (reconcile_orphan_deposits config env)
  unfolding reconcile_orphan_deposits
  reconcile-Covered = bind-Keeps (act-Keeps _ _ (λ n s p. p)) add_orphans-Covered

  scan_chain-Covered : Keeps Covered (scan_chain config env)
  unfolding scan_chain
  scan_chain-Covered = then-Keeps reconcile-Covered (
      bind-Keeps (ask-Keeps _ _) (λ tip.
        bind-Ensures (λ last s. At last s)
          (act-Ensures _ _ (λ n s p.
            let e = upsert_cursor-At tip p.0 s p.1 in
            (
              subst (λ (r : ℕ × Store). At r.0 r.1) (sym e) p.1,
              p,
              subst (λ (r : ℕ × Store). Covered r.1) (sym e) p,
            )))
          (λ last. scan-Covered _ last tip)))

  fair_watcher-Covered : (rounds : ℕ) → Keeps Covered (fair_watcher config env rounds)
  unfolding fair_watcher
  fair_watcher-Covered zero = skip-Keeps
  fair_watcher-Covered (suc rounds) =
      bind-Ensures (λ _. Covered) (look-Ensures _ (λ n s p. p))
        λ aborted. if-Keeps aborted skip-Keeps (
          then-Keeps (catch-Keeps scan_chain-Covered (λ _. skip-Keeps))
            (fair_watcher-Covered rounds))

  -- Where the bridge's addresses stay known, a block is read the same each time, and MongoDB reports
  -- no duplicate that is not there: let the deposits have different keys, none of the open ones a
  -- payment, and let every payment to a known address in the blocks behind the cursor have a deposit.
  -- This is so again after the watcher's rounds, whatever calls fail, and wherever the watcher is
  -- told to stop or the process is killed.
  pub fair_watcher_covers :
      (rounds : ℕ) (w : World Store)
      → Covered w.store
      → Covered (fair_watcher config env rounds w).1.store
  fair_watcher_covers rounds w p = run-Ensures (fair_watcher-Covered rounds) w p
