-- ===== src/FairWatcher/Rescan.antt =====
-- A payment that the FairCoin watcher meets again
-- (services/bridge/src/workers/fair-watcher.ts, `processBlock`).
use faircoin_bridge.Effects.{World}
use faircoin_bridge.Effects.Hoare.{
  Ensures, bind-Ensures, known-Ensures, query-Ensures, run-Ensures, skip-Ensures,
}
use faircoin_bridge.Effects.Keeps.{Keeps, bind-Keeps, pure-Keeps, query-Keeps}
use faircoin_bridge.FairWatcher.{
  MatchedDeposit, Payment, find_origin, is_vout, match_deposit, process_payment, unless_seen,
}
use faircoin_bridge.Models.Deposit.{Deposit}
use faircoin_bridge.Prelude.{Option, is_some, none, refl, some, subst, sym, true, ℕ, ◌≡◌}
use faircoin_bridge.Prelude.Collection.{find_one}
use faircoin_bridge.Store.{Config, Env, Store}

-- There is a deposit for this payment.
abbrev pub IsRecorded : Payment → Store → Type 0
IsRecorded p s = is_some (find_one (is_vout p.fair_txid p.fair_vout) s.deposits) ≡ true

module _ (config : Config) (env : Env) (p : Payment) (before : Store) where
  abbrev Unchanged : Store → Type 0
  Unchanged s = s ≡ before

  find_origin-Unchanged :
      (address : ℕ) (o : Option (ℕ × Deposit)) → Keeps Unchanged (find_origin config env address o)
  unfolding find_origin
  find_origin-Unchanged address none = query-Keeps _ _
  find_origin-Unchanged address (some _) = pure-Keeps _

  match_deposit-Unchanged : (address : ℕ) → Keeps Unchanged (match_deposit config env address)
  unfolding match_deposit
  match_deposit-Unchanged address =
      bind-Keeps (query-Keeps _ _)
        (λ found. bind-Keeps (find_origin-Unchanged address found) (λ origin. pure-Keeps _))

  unless_seen-Unchanged :
      (match : MatchedDeposit) (already : Option (ℕ × Deposit))
      → Ensures
          (λ s. Unchanged s × (is_some already ≡ true))
          (unless_seen config env p match already)
          (λ _. Unchanged)
          Unchanged
  unfolding unless_seen
  unless_seen-Unchanged match (some _) = skip-Ensures (λ s h. h.0)
  unless_seen-Unchanged match none = known-Ensures (λ s h. h.1) (λ e. absurd (cc))

  process_payment-Unchanged : IsRecorded p before → Keeps Unchanged (process_payment config env p)
  unfolding process_payment
  process_payment-Unchanged old = bind-Keeps (match_deposit-Unchanged p.fair_address) λ match.
      bind-Ensures (λ already s. Unchanged s × (is_some already ≡ true))
        (query-Ensures _ _ (λ s e. ((e, subst (λ t. IsRecorded p t) (sym e) old), e)))
        (unless_seen-Unchanged match)

module _ (config : Config) (env : Env) where
  -- A payment that has a deposit changes nothing when a block is scanned again, however the watcher
  -- ends on it.
  pub process_payment_again :
      (p : Payment) (w : World Store)
      → IsRecorded p w.store
      → (process_payment config env p w).1.store ≡ w.store
  process_payment_again p w old =
      run-Ensures (process_payment-Unchanged config env p w.store old) w refl
