-- ===== src/BaseWatcher/Scan.antt =====
-- Which burns the base watcher has recorded, whatever fails on the way
-- (services/bridge/src/workers/base-watcher.ts).
use mathlib.Core.List.{Memᴰ}
use mathlib.Core.List.Memᴰ
use faircoin_bridge.BaseWatcher.{
  SeenBurn, accept_burn, add_release_job, create_withdrawal, created, fail_burn, insert_unless,
  insert_withdrawal, is_burn, is_valid_destination, new_withdrawal, over_cap, process_log,
  process_logs, process_new, process_seen, release_burn, seen_burn,
}
use faircoin_bridge.Effects.{◌>>◌}
use faircoin_bridge.Effects.Hoare.{
  Ensures, act-Ensures, bind-Ensures, if-Ensures, known-Ensures, look-Ensures, modify-Ensures,
  pre-Ensures, pure-Ensures, query-Ensures, skip-Ensures, throw-Ensures, weaken-Ensures,
}
use faircoin_bridge.Effects.Keeps.{act-Keeps, ask-Keeps, catch-Keeps, pure-Keeps, then-Ensures}
use faircoin_bridge.Models.Chain.{Log}
use faircoin_bridge.Models.Withdrawal.{Withdrawal, WithdrawalStatus}
use faircoin_bridge.Prelude.{
  Bool, List, Option, [], ap, arith, false, inl, inr, is_some, none, not_both, refl, some,
  some-injective, subst, sym, true, ℕ, ◌++◌, ◌∙◌, ◌∷◌, ◌≡◌, ◌⊎◌,
}
use faircoin_bridge.Prelude.Collection.{Collection, find_one, next_id}
use faircoin_bridge.Store.{Alert, Config, Env, ReleaseJob, Store, alert}

-- There is a withdrawal for this burn.
abbrev pub IsRecorded : SeenBurn → Store → Type 0
IsRecorded b s = is_some (find_one (is_burn b.hash b.index) s.withdrawals) ≡ true

-- The burns that `P` picks are recorded, and the cursor has not moved.
abbrev pub Seen : (SeenBurn → Type 0) → Option ℕ → Store → Type 0
Seen P cursor s = ((b : SeenBurn) → P b → IsRecorded b s) × (s.base_cursor ≡ cursor)

find_one-append :
    (p : Withdrawal → Bool) (c e : Collection Withdrawal)
    → is_some (find_one p c) ≡ true
    → is_some (find_one p (c ++ e)) ≡ true
unfolding find_one
find_one-append p [] e h = cc
find_one-append p ((j, d) ∷ c) e h = ground (arith, find_one-append p c e)

find_one-last :
    (p : Withdrawal → Bool) (c : Collection Withdrawal) (id : ℕ) (d : Withdrawal)
    → p d ≡ true
    → is_some (find_one p (c ++ (id, d) ∷ [])) ≡ true
unfolding find_one
find_one-last p [] id d h = ground arith
find_one-last p ((j, d') ∷ c) id d h = ground (arith, find_one-last p c id d)

insert-Seen :
    (P : SeenBurn → Type 0) (cursor : Option ℕ) (id now : ℕ) (d : Withdrawal) (s : Store)
    → Seen P cursor s
    → Seen P cursor (insert_withdrawal id now d s).1
unfolding insert_withdrawal
insert-Seen P cursor id now d s h =
    go (find_one (is_burn d.base_burn_tx_hash d.log_index) s.withdrawals)
  where
    go : (o : Option (ℕ × Withdrawal)) → Seen P cursor (insert_unless o id now d s).1
    go (some _) = unfold insert_unless in h
    go none = unfold insert_unless in ((λ b p. find_one-append _ s.withdrawals _ (h.0 b p)), h.1)

insert-IsRecorded :
    (id now : ℕ) (d : Withdrawal) (s : Store)
    → is_some (
        find_one
          (is_burn d.base_burn_tx_hash d.log_index)
          (insert_withdrawal id now d s).1.withdrawals)
      ≡ true
unfolding insert_withdrawal
insert-IsRecorded id now d s =
    go (find_one (is_burn d.base_burn_tx_hash d.log_index) s.withdrawals) refl
  where
    go :
        (o : Option (ℕ × Withdrawal))
        → find_one (is_burn d.base_burn_tx_hash d.log_index) s.withdrawals ≡ o
        → is_some (
            find_one
              (is_burn d.base_burn_tx_hash d.log_index)
              (insert_unless o id now d s).1.withdrawals)
          ≡ true
    go (some x) e = unfold insert_unless in ap is_some e
    go none e =
        unfold insert_unless in
        find_one-last _ s.withdrawals id (record d { created_at = now }) (ground arith)

module _ (config : Config) (env : Env) (P : SeenBurn → Type 0) (cursor : Option ℕ) where
  abbrev Done : SeenBurn → Store → Type 0
  Done b s = Seen P cursor s × IsRecorded b s

  create_withdrawal-Done :
      (b : SeenBurn) (address wei sats : ℕ) (st : WithdrawalStatus)
      → Ensures
          (Seen P cursor)
          (create_withdrawal config env (new_withdrawal b address wei sats st))
          (λ _. Done b)
          (Seen P cursor)
  unfolding create_withdrawal
  create_withdrawal-Done b address wei sats st =
      bind-Ensures (λ _. Done b)
        (act-Ensures _ _ (λ n s p.
          let q =
            insert-Seen P cursor (next_id s.withdrawals) (env.now n)
              (new_withdrawal b address wei sats st) s p in
          (
            (
              q,
              insert-IsRecorded (next_id s.withdrawals) (env.now n)
                  (new_withdrawal b address wei sats st) s,
            ),
            p,
            q,
          )))
        inserted
    where
      inserted :
          (o : Option ℕ) → Ensures (Done b) (created config env o) (λ _. Done b) (Seen P cursor)
      inserted none = unfold created in throw-Ensures _ (λ s p. p.0)
      inserted (some id) = unfold created in pure-Ensures _ (λ s p. p)

  fail_burn-Done :
      (b : SeenBurn) (address : ℕ) (a : Alert)
      → Ensures (Seen P cursor) (fail_burn config env b address a) (λ _. Done b) (Seen P cursor)
  unfolding fail_burn alert
  fail_burn-Done b address a =
      then-Ensures (Done b) (create_withdrawal-Done b address _ _ _)
        (modify-Ensures _ _ (λ s p. (p, p.0, p.0)))

  add_release_job-Done :
      (b : SeenBurn) (job : ReleaseJob)
      → Ensures (Done b) (add_release_job config env job) (λ _. Done b) (Seen P cursor)
  unfolding add_release_job
  add_release_job-Done b job = modify-Ensures _ _ (λ s p. (p, p.0, p.0))

  accept_burn-Done :
      (b : SeenBurn) (address : ℕ)
      → Ensures (Seen P cursor) (accept_burn config env b address) (λ _. Done b) (Seen P cursor)
  unfolding accept_burn release_burn
  accept_burn-Done b address =
      bind-Ensures (λ _. Seen P cursor) (act-Keeps _ _ (λ n s p. p))
        λ daily.
          if-Ensures (over_cap config env b daily) (λ _. fail_burn-Done b address _)
            (λ _.
              bind-Ensures _ (create_withdrawal-Done b address _ _ _)
                (λ id. add_release_job-Done b _))

  process_new-Done :
      (b : SeenBurn) (o : Option (ℕ × Withdrawal))
      → Ensures
          (λ s. Seen P cursor s × (find_one (is_burn b.hash b.index) s.withdrawals ≡ o))
          (process_new config env b o)
          (λ _. Done b)
          (Seen P cursor)
  unfolding process_new is_valid_destination
  process_new-Done b (some _) = skip-Ensures (λ s p. (p.0, ap is_some p.1))
  process_new-Done b none =
      bind-Ensures (λ _. Seen P cursor)
        (pre-Ensures (λ s p. p.0) (catch-Keeps (ask-Keeps _ _) (λ _. pure-Keeps _)))
        (λ valid. if-Ensures valid (λ _. accept_burn-Done b _) (λ _. fail_burn-Done b _ _))

  process_log-Seen :
      (l : Log)
      → Ensures
          (Seen P cursor)
          (process_log config env l)
          (λ _. Seen (λ b. P b ⊎ (seen_burn l ≡ some b)) cursor)
          (Seen P cursor)
  unfolding process_log
  process_log-Seen l = go (seen_burn l)
    where
      go :
          (o : Option SeenBurn)
          → Ensures
              (Seen P cursor)
              (process_seen config env o)
              (λ _. Seen (λ b. P b ⊎ (o ≡ some b)) cursor)
              (Seen P cursor)
      go none =
          unfold process_seen in
          skip-Ensures (λ s p. ((λ b h. elim h [ inl x ↦ p.0 b x | inr e ↦ absurd (cc) ]), p.1))
      go (some b) =
          unfold process_seen in
          weaken-Ensures (λ s p. p)
            (λ _ s p. (
              (λ b' h. elim h [
                | inl x ↦ p.0.0 b' x
                | inr e ↦ subst (λ y. IsRecorded y s) (some-injective _ _ e) p.1
              ]),
              p.0.1,
            ))
            (λ s p. p)
            (bind-Ensures
              (λ o s. Seen P cursor s × (find_one (is_burn b.hash b.index) s.withdrawals ≡ o))
              (query-Ensures _ _ (λ s p. ((p, refl), p))) (process_new-Done b))

-- One of these logs reports the burn.
abbrev pub Among : List Log → SeenBurn → Type 0
Among ls b = (l : Log) × Memᴰ l ls × (seen_burn l ≡ some b)

module _ (config : Config) (env : Env) (cursor : Option ℕ)
    (running : (n : ℕ) → env.aborted n ≡ false) where
  pub process_logs-Seen :
      (P : SeenBurn → Type 0) (ls : List Log)
      → Ensures
          (Seen P cursor)
          (process_logs config env ls)
          (λ _. Seen (λ b. P b ⊎ Among ls b) cursor)
          (Seen P cursor)
  unfolding process_logs
  process_logs-Seen P [] =
      skip-Ensures (λ s p.
        ((λ b h. elim h [ inl x ↦ p.0 b x | inr (l, m, e) ↦ absurd (Memᴰ.not-nil m) ]), p.1))
  process_logs-Seen P (l ∷ ls) =
      bind-Ensures (λ (aborted : Bool) s. Seen P cursor s × (aborted ≡ false))
        (look-Ensures _ (λ n s p. (p, running n)))
        (λ aborted.
          if-Ensures aborted (λ t. known-Ensures (λ s p. p.1) (λ f. absurd (not_both t f)))
            (λ _. pre-Ensures (λ s p. p.0) (rest (process_logs-Seen one ls))))
    where
      one : SeenBurn → Type 0
      one b = P b ⊎ (seen_burn l ≡ some b)

      regroup : (b : SeenBurn) → P b ⊎ Among (l ∷ ls) b → one b ⊎ Among ls b
      regroup b (inl x) = inl (inl x)
      regroup b (inr (m, h, e)) = elim (Memᴰ.cases_cons h) [
        | inl same ↦ inl (inr (ap seen_burn (sym same) ∙ e))
        | inr h' ↦ inr (m, h', e)
      ]

      rest :
          Ensures
            (Seen one cursor)
            (process_logs config env ls)
            (λ _. Seen (λ b. one b ⊎ Among ls b) cursor)
            (Seen one cursor)
          → Ensures
              (Seen P cursor)
              (process_log config env l >> process_logs config env ls)
              (λ _. Seen (λ b. P b ⊎ Among (l ∷ ls) b) cursor)
              (Seen P cursor)
      rest others = then-Ensures (Seen one cursor) (process_log-Seen config env P cursor l) (
          weaken-Ensures (λ s p. p) (λ _ s p. ((λ b h. p.0 b (regroup b h)), p.1))
            (λ s p. ((λ b x. p.0 b (inl x)), p.1)) others)
