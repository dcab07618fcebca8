-- ===== src/Release/Recorded.antt =====
-- Once the txid of a release is on file, no later run pays it again.
use faircoin_bridge.Effects.{Error, World}
use faircoin_bridge.Effects.Hoare.{
  Ensures, bind-Ensures, if-Ensures, known-Ensures, pre-Ensures, pure-Ensures, query-Ensures,
  run-Ensures,
}
use faircoin_bridge.Effects.Keeps.{
  Keeps, act-Keeps, ask-Keeps, bind-Keeps, catch-Keeps, if-Keeps, modify-Keeps, pure-Keeps,
  skip-Keeps, then-Keeps, throw-Keeps,
}
use faircoin_bridge.Models.Withdrawal.{Withdrawal, WithdrawalStatus}
use faircoin_bridge.Prelude.{
  Bool, List, Option, Option-cases, arith, false, inl, inr, is_none, none, refl, some, true, ℕ, ◌∙◌,
  ◌≡◌,
}
use faircoin_bridge.Prelude.Collection.{Collection, find_by_id, find_by_id-update, update_by_id}
use faircoin_bridge.Release.{
  claim_or_reload, fair_tx_exists, get_raw_transaction, link_release_to_buy_order, load_withdrawal,
  not_found, reconcile_release, release_by_status, release_claimed, release_if_signing,
  release_loaded, release_open, require_node_wallet, set_reconciled, set_withdrawal, sign_and_link,
  sign_node_wallet, sign_node_wallet_by, sign_release, txid_of, validate_destination,
}
use faircoin_bridge.Store.{Alert, Config, Env, HotWalletMode, ReleaseJob, Send, Store, alert}

-- A withdrawal's txid is on file, and the payments that faircoind was asked for are `sent`.
pub record OnFile (id txid : ℕ) (sent : List Send) (s : Store) : Type 0 where
  pub recorded : txid_of (find_by_id id s.withdrawals) ≡ some txid
  pub unsent : s.sends ≡ sent

-- A write that leaves the txid of every document alone.
txid_of-update :
    (id : ℕ) (f : Withdrawal → Withdrawal) (c : Collection Withdrawal)
    → ((d : Withdrawal) → (f d).fair_txid ≡ d.fair_txid)
    → txid_of (find_by_id id (update_by_id id f c)) ≡ txid_of (find_by_id id c)
txid_of-update id f c h = elim (Option-cases (find_by_id id c)) [
  | inl e ↦ ground (arith, find_by_id-update id id f c)
  | inr (d, e) ↦ ground (arith, find_by_id-update id id f c, h d)
]

module _ (config : Config) (env : Env) (job : ReleaseJob) (txid : ℕ) (sent : List Send) where
  abbrev IsKept : Store → Type 0
  IsKept = OnFile job.withdrawal_id txid sent

  alert-OnFile : (a : Alert) → Keeps IsKept (alert env a)
  unfolding alert
  alert-OnFile a = modify-Keeps _ _ (λ s p. record { recorded = p.recorded; unsent = p.unsent })

  reconcile_release-OnFile :
      (known : Bool) (t : ℕ) → Keeps IsKept (reconcile_release config env job.withdrawal_id t known)
  unfolding reconcile_release set_withdrawal set_reconciled
  reconcile_release-OnFile true t =
      then-Keeps
        (act-Keeps _ _ (λ n s p. record {
          recorded =
              txid_of-update job.withdrawal_id (set_reconciled (env.now n)) s.withdrawals
                (λ d. refl)
              ∙ p.recorded;
          unsent = p.unsent;
        }))
        (pure-Keeps _)
  reconcile_release-OnFile false t = then-Keeps (alert-OnFile _) (throw-Keeps _)

  fair_tx_exists-OnFile : (t : ℕ) → Keeps IsKept (fair_tx_exists config env t)
  unfolding fair_tx_exists get_raw_transaction not_found
  fair_tx_exists-OnFile t =
      catch-Keeps
        (then-Keeps
          (bind-Keeps (ask-Keeps _ _) (λ known. if-Keeps known skip-Keeps (throw-Keeps _)))
          (pure-Keeps _))
        handled
    where
      handled : (e : Error) → Keeps IsKept (not_found config env e)
      handled Error.no_such_tx = pure-Keeps _
      handled Error.transient = throw-Keeps _
      handled _ = throw-Keeps _

  sign_node_wallet_by-OnFile :
      (o : Option ℕ) → o ≡ some txid → Keeps IsKept (sign_node_wallet_by config env job o)
  unfolding sign_node_wallet_by
  sign_node_wallet_by-OnFile none e = cc
  sign_node_wallet_by-OnFile (some t) e =
      bind-Keeps (fair_tx_exists-OnFile t) (λ known. reconcile_release-OnFile known t)

  sign_and_link-OnFile :
      (d : Withdrawal) → d.fair_txid ≡ some txid → Keeps IsKept (sign_and_link config env job d)
  unfolding sign_and_link sign_node_wallet link_release_to_buy_order
  sign_and_link-OnFile d e = bind-Keeps (sign_node_wallet_by-OnFile d.fair_txid e) λ t.
      then-Keeps (modify-Keeps _ _ (λ s p. record { recorded = p.recorded; unsent = p.unsent })) (
        catch-Keeps (modify-Keeps _ _ (λ s p. record { recorded = p.recorded; unsent = p.unsent }))
          (λ _. skip-Keeps))

  release_if_signing-OnFile :
      (st : WithdrawalStatus) (d : Withdrawal)
      → d.fair_txid ≡ some txid
      → Keeps IsKept (release_if_signing config env st job d)
  unfolding release_if_signing
  release_if_signing-OnFile WithdrawalStatus.signing d e = sign_and_link-OnFile d e
  release_if_signing-OnFile _ d e = skip-Keeps

  release_claimed-OnFile :
      (found : Option Withdrawal)
      → Ensures
          (λ s. IsKept s × (txid_of found ≡ some txid))
          (release_claimed config env job found)
          (λ _. IsKept)
          IsKept
  unfolding release_claimed
  release_claimed-OnFile none = pre-Ensures (λ s p. p.0) skip-Keeps
  release_claimed-OnFile (some d) =
      known-Ensures (λ s p. p.1)
        (λ e. pre-Ensures (λ s p. p.0) (release_if_signing-OnFile d.status d e))

  claim_or_reload-OnFile :
      (d : Withdrawal)
      → d.fair_txid ≡ some txid
      → Ensures IsKept
          (claim_or_reload config env job.withdrawal_id d)
          (λ found s. IsKept s × (txid_of found ≡ some txid))
          IsKept
  unfolding claim_or_reload
  claim_or_reload-OnFile d e =
      if-Ensures (is_none d.fair_txid) (λ unset. absurd (ground arith))
        (λ _. pure-Ensures _ (λ s p. (p, e)))

  require_node_wallet-OnFile : (m : HotWalletMode) → Keeps IsKept (require_node_wallet config env m)
  unfolding require_node_wallet
  require_node_wallet-OnFile HotWalletMode.node_wallet = skip-Keeps
  require_node_wallet-OnFile HotWalletMode.local_hd = throw-Keeps _

  validate_destination-OnFile :
      (d : Withdrawal)
      → d.fair_txid ≡ some txid
      → Keeps IsKept (validate_destination config env job d)
  unfolding validate_destination
  validate_destination-OnFile d e =
      if-Ensures (is_none d.fair_txid) (λ unset. absurd (ground arith)) (λ _. skip-Keeps)

  release_by_status-OnFile :
      (st : WithdrawalStatus) (d : Withdrawal)
      → d.fair_txid ≡ some txid
      → Keeps IsKept (release_by_status config env st job d)
  unfolding release_by_status release_open
  release_by_status-OnFile WithdrawalStatus.final d e = skip-Keeps
  release_by_status-OnFile WithdrawalStatus.broadcast d e = skip-Keeps
  release_by_status-OnFile WithdrawalStatus.failed d e = throw-Keeps _
  release_by_status-OnFile _ d e =
      then-Keeps (require_node_wallet-OnFile config.fair_hot_wallet_mode) (
        then-Keeps (validate_destination-OnFile d e)
          (bind-Ensures _ (claim_or_reload-OnFile d e) (λ found. release_claimed-OnFile found)))

  release_loaded-OnFile :
      (found : Option Withdrawal)
      → Ensures
          (λ s. IsKept s × (txid_of found ≡ some txid))
          (release_loaded config env job found)
          (λ _. IsKept)
          IsKept
  unfolding release_loaded
  release_loaded-OnFile none = pre-Ensures (λ s p. p.0) skip-Keeps
  release_loaded-OnFile (some d) =
      known-Ensures (λ s p. p.1)
        (λ e. pre-Ensures (λ s p. p.0) (release_by_status-OnFile d.status d e))

  sign_release-OnFile : Keeps IsKept (sign_release config env job)
  unfolding sign_release load_withdrawal
  sign_release-OnFile =
      bind-Ensures _ (query-Ensures _ _ (λ s p. ((p, p.recorded), p)))
        (λ found. release_loaded-OnFile found)

  -- Once a withdrawal's txid is on file, a run of the release signer, however its calls end, asks
  -- faircoind for no payment and leaves that txid on file.
  pub sign_release_once_recorded :
      (w : World Store)
      → OnFile job.withdrawal_id txid sent w.store
      → OnFile job.withdrawal_id txid sent (sign_release config env job w).1.store
  sign_release_once_recorded w p = run-Ensures sign_release-OnFile w p
