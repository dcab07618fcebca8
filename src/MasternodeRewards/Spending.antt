-- ===== src/MasternodeRewards/Spending.antt =====
-- What one tick of the masternode reward worker can send
-- (services/bridge/src/workers/masternode-reward-worker.ts).
use faircoin_bridge.Effects.{Error, modify}
use faircoin_bridge.Effects.Hoare.{
  Ensures, act-Ensures, bind-Ensures, catch-Ensures, if-Ensures, pre-Ensures, pure-Ensures,
  weaken-Ensures,
}
use faircoin_bridge.Effects.Keeps.{
  Keeps, ask-Keeps, bind-Keeps, catch-Keeps, if-Keeps, modify-Keeps, pure-Keeps, query-Keeps,
  skip-Keeps, then-Keeps, throw-Keeps,
}
use faircoin_bridge.MasternodeRewards.{
  all_final, broadcast_payout, build_payouts, execute_cycle, fail_payout, fair_tx_exists, finalise,
  get_raw_transaction, is_eligible, mark_payout_broadcast, mark_payout_failed, not_found, pay_all,
  pay_by_txid, persist_payout_txid, reconcile_payout, same_outpoint, send_payout, set_payout,
  was_sent,
}
use faircoin_bridge.Models.Chain.{MasternodeListEntry}
use faircoin_bridge.Models.Cycles.{Payout, RewardCycle}
use faircoin_bridge.Prelude.{
  Bool, List, Option, [], any, arith, false, keep, length, none, some, true, ℕ, ◌*◌, ◌+◌, ◌∷◌, ◌≡◌,
  ◌≤◌,
}
use faircoin_bridge.Release.{sats_to_fair}
use faircoin_bridge.Store.{Alert, Config, Env, Send, Store, alert}

abbrev pub total_sent : List Send → ℕ
total_sent [] = 0
total_sent (x ∷ xs) = x.amount.sats + total_sent xs

abbrev owed_by : Option ℕ → Payout → ℕ
owed_by none p = p.amount_sats
owed_by (some _) p = 0

-- The payouts of a cycle that have no txid on file.
abbrev pub unpaid_sats : List Payout → ℕ
unpaid_sats [] = 0
unpaid_sats (p ∷ ps) = owed_by p.txid p + unpaid_sats ps

abbrev pub eligible_of : List MasternodeListEntry → List MasternodeListEntry
eligible_of list = keep (λ entry. is_eligible entry.status) list

pub unpaid-build_payouts :
    (entries : List MasternodeListEntry) (per : ℕ)
    → unpaid_sats (build_payouts entries per) ≡ per * length entries
unfolding build_payouts
unpaid-build_payouts [] per = omega arith
unpaid-build_payouts (entry ∷ entries) per = grind (arith, unpaid-build_payouts entries per)

module _ (config : Config) (env : Env) (limit : ℕ) where
  -- With `k` more, the limit is not passed.
  abbrev Spent : ℕ → Store → Type 0
  Spent k s = total_sent s.sends + k ≤ limit

  alert-Spent : (k : ℕ) (a : Alert) → Keeps (Spent k) (alert env a)
  unfolding alert
  alert-Spent k a = modify-Keeps _ _ (λ s p. p)

  set_payout-Spent :
      (k id i : ℕ) (f : Payout → Payout) → Keeps (Spent k) (modify env.fate (set_payout id i f))
  unfolding set_payout
  set_payout-Spent k id i f = modify-Keeps _ _ (λ s p. p)

  fail_payout-Spent : (k id i : ℕ) (a : Alert) → Keeps (Spent k) (fail_payout config env id i a)
  unfolding fail_payout mark_payout_failed
  fail_payout-Spent k id i a =
      then-Keeps (set_payout-Spent k id i _) (then-Keeps (alert-Spent k a) (pure-Keeps _))

  fair_tx_exists-Spent : (k t : ℕ) → Keeps (Spent k) (fair_tx_exists config env t)
  unfolding fair_tx_exists get_raw_transaction not_found
  fair_tx_exists-Spent k t =
      catch-Keeps
        (then-Keeps
          (bind-Keeps (ask-Keeps _ _) (λ known. if-Keeps known skip-Keeps (throw-Keeps _)))
          (pure-Keeps _))
        handled
    where
      handled : (e : Error) → Keeps (Spent k) (not_found config env e)
      handled Error.no_such_tx = pure-Keeps _
      handled _ = throw-Keeps _

  send_payout-Spent :
      (k id i : ℕ) (p : Payout)
      → Ensures (Spent (p.amount_sats + k)) (send_payout config env id i p) (λ _. Spent k) (Spent k)
  unfolding send_payout broadcast_payout sats_to_fair persist_payout_txid mark_payout_broadcast
  send_payout-Spent k id i p =
      bind-Ensures (λ _. Spent k)
        (act-Ensures _ _ (λ n s h.
          let after : total_sent s.sends + p.amount_sats + k ≤ limit = omega arith in
          (omega (arith, after), omega arith, omega (arith, after))))
        (λ txid.
          then-Keeps (set_payout-Spent k id i _)
            (then-Keeps (set_payout-Spent k id i _) (pure-Keeps _)))

  pay_by_txid-Spent :
      (k id i : ℕ) (skips : List (ℕ × ℕ)) (p : Payout) (o : Option ℕ)
      → Ensures
          (Spent (owed_by o p + k))
          (pay_by_txid config env id i skips p o)
          (λ _. Spent k)
          (Spent k)
  unfolding pay_by_txid
  pay_by_txid-Spent k id i skips p (some txid) =
      pre-Ensures (λ s h. omega arith)
        (if-Keeps (was_sent p.status) (pure-Keeps _)
          (bind-Keeps (fair_tx_exists-Spent k txid) reconciled))
    where
      reconciled : (known : Bool) → Keeps (Spent k) (reconcile_payout config env id i txid known)
      reconciled true =
          unfold reconcile_payout mark_payout_broadcast in
          then-Keeps (set_payout-Spent k id i _) (pure-Keeps _)
      reconciled false = unfold reconcile_payout in fail_payout-Spent k id i _
  pay_by_txid-Spent k id i skips p none =
      if-Ensures (any (same_outpoint p.masternode_outpoint) skips)
        (λ _. pure-Ensures _ (λ s h. omega arith))
        (λ _. catch-Ensures (send_payout-Spent k id i p) (λ e. fail_payout-Spent k id i _))

  pay_all-Spent :
      (id i : ℕ) (skips : List (ℕ × ℕ)) (ps : List Payout) (any_failed : Bool)
      → Ensures
          (Spent (unpaid_sats ps))
          (pay_all config env id i skips ps any_failed)
          (λ _. Spent 0)
          (Spent 0)
  unfolding pay_all
  pay_all-Spent id i skips [] any_failed = pure-Keeps _
  pay_all-Spent id i skips (p ∷ ps) any_failed =
      bind-Ensures (λ _. Spent (unpaid_sats ps))
        (weaken-Ensures (λ s h. h) (λ _ s h. h) (λ s h. omega arith)
          (pay_by_txid-Spent (unpaid_sats ps) id i skips p p.txid))
        (λ any_bad. pay_all-Spent id (i + 1) skips ps _)

  finalise-Spent :
      (id : ℕ) (any_bad : Bool) (o : Option RewardCycle)
      → Keeps (Spent 0) (finalise config env id any_bad o)
  unfolding finalise
  finalise-Spent id any_bad none = skip-Keeps
  finalise-Spent id any_bad (some c) =
      if-Keeps (all_final c.payouts)
        (then-Keeps (modify-Keeps _ _ (λ s p. p)) (modify-Keeps _ _ (λ s p. p))) skip-Keeps

  pub execute_cycle-Spent :
      (id : ℕ) (cycle : RewardCycle)
      → Ensures
          (Spent (unpaid_sats cycle.payouts))
          (execute_cycle config env id cycle)
          (λ _. Spent 0)
          (Spent 0)
  unfolding execute_cycle
  execute_cycle-Spent id cycle =
      bind-Ensures (λ _. Spent 0) (pay_all-Spent id 0 _ cycle.payouts false)
        (λ any_bad. bind-Keeps (query-Keeps _ _) (λ fresh. finalise-Spent id any_bad fresh))
