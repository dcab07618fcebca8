-- ===== src/Release/Final.antt =====
-- Which withdrawals a run of the release signer leaves alone (services/bridge/src/signer/fair.ts).
use faircoin_bridge.Effects.{Error, World}
use faircoin_bridge.Effects.Hoare.{
  Ensures, bind-Ensures, known-Ensures, pre-Ensures, query-Ensures, run-Ensures,
}
use faircoin_bridge.Effects.Keeps.{
  Keeps, act-Keeps, ask-Keeps, bind-Keeps, catch-Keeps, if-Keeps, modify-Keeps, pure-Keeps,
  query-Keeps, skip-Keeps, then-Keeps, throw-Keeps,
}
use faircoin_bridge.Models.Withdrawal.{Withdrawal, WithdrawalStatus}
use faircoin_bridge.Prelude.{
  Bool, Bool-cases, Option, ap, arith, false, inl, inr, none, some, some-injective, subst, sym,
  true, ℕ, ◌==◌, ◌∙◌, ◌≡◌, ◌≢◌, ◌⊎◌,
}
use faircoin_bridge.Prelude.Collection.{claim_by_id-cases, find_by_id, find_by_id-update_ne}
use faircoin_bridge.Release.{
  claim_or_reload, claim_release, claim_release_effect, fair_tx_exists, get_raw_transaction,
  link_release_to_buy_order, load_withdrawal, not_found, or_reload, reconcile_release,
  refuse_address, releasable, release_by_status, release_claimed, release_if_signing,
  release_loaded, release_open, require_node_wallet, send_to_address, set_signing, set_withdrawal,
  sign_and_link, sign_node_wallet, sign_node_wallet_by, sign_release, validate_destination,
}
use faircoin_bridge.Store.{Config, Env, HotWalletMode, ReleaseJob, Store, alert}

-- No run of the signer leads out of these.
unfoldable pub is_settled : WithdrawalStatus → Bool
is_settled WithdrawalStatus.final = true
is_settled WithdrawalStatus.broadcast = true
is_settled WithdrawalStatus.failed = true
is_settled _ = false

module _ (config : Config) (env : Env) (job : ReleaseJob) (id : ℕ) (d : Withdrawal) where
  abbrev Kept : Store → Type 0
  Kept s = find_by_id id s.withdrawals ≡ some d

  module _ (other : job.withdrawal_id ≢ id) where
    set_withdrawal-Kept :
        (f : Withdrawal → Withdrawal) (s : Store)
        → Kept s
        → Kept (set_withdrawal job.withdrawal_id f s)
    unfolding set_withdrawal
    set_withdrawal-Kept f s p = find_by_id-update_ne job.withdrawal_id id f s.withdrawals other ∙ p

    fair_tx_exists-Kept : (txid : ℕ) → Keeps Kept (fair_tx_exists config env txid)
    unfolding fair_tx_exists get_raw_transaction
    fair_tx_exists-Kept txid =
        catch-Keeps
          (then-Keeps
            (bind-Keeps (ask-Keeps _ _) (λ known. if-Keeps known skip-Keeps (throw-Keeps _)))
            (pure-Keeps _))
          missing
      where
        missing : (e : Error) → Keeps Kept (not_found config env e)
        missing Error.no_such_tx = unfold not_found in pure-Keeps _
        missing Error.transient = unfold not_found in throw-Keeps _
        missing Error.duplicate_key = unfold not_found in throw-Keeps _
        missing Error.reverted = unfold not_found in throw-Keeps _
        missing Error.non_retryable = unfold not_found in throw-Keeps _

    reconcile_release-Kept :
        (txid : ℕ) (known : Bool)
        → Keeps Kept (reconcile_release config env job.withdrawal_id txid known)
    unfolding reconcile_release alert
    reconcile_release-Kept txid true =
        then-Keeps (act-Keeps _ _ (λ n s p. set_withdrawal-Kept _ s p)) (pure-Keeps _)
    reconcile_release-Kept txid false = then-Keeps (modify-Keeps _ _ (λ s p. p)) (throw-Keeps _)

    sign_node_wallet_by-Kept : (o : Option ℕ) → Keeps Kept (sign_node_wallet_by config env job o)
    unfolding sign_node_wallet_by send_to_address
    sign_node_wallet_by-Kept (some txid) =
        bind-Keeps (fair_tx_exists-Kept txid) (λ known. reconcile_release-Kept txid known)
    sign_node_wallet_by-Kept none = bind-Keeps (act-Keeps _ _ (λ n s p. p)) (λ txid.
        then-Keeps (act-Keeps _ _ (λ n s p. set_withdrawal-Kept _ s p))
          (then-Keeps (modify-Keeps _ _ (λ s p. set_withdrawal-Kept _ s p)) (pure-Keeps _)))

    release_if_signing-Kept :
        (st : WithdrawalStatus) (x : Withdrawal)
        → Keeps Kept (release_if_signing config env st job x)
    unfolding release_if_signing sign_and_link sign_node_wallet link_release_to_buy_order
    release_if_signing-Kept WithdrawalStatus.signing x =
        bind-Keeps (sign_node_wallet_by-Kept _) (λ txid.
          then-Keeps (modify-Keeps _ _ (λ s p. p))
            (catch-Keeps (modify-Keeps _ _ (λ s p. p)) (λ _. skip-Keeps)))
    release_if_signing-Kept _ x = skip-Keeps

    release_claimed-Kept :
        (found : Option Withdrawal) → Keeps Kept (release_claimed config env job found)
    unfolding release_claimed
    release_claimed-Kept none = skip-Keeps
    release_claimed-Kept (some x) = release_if_signing-Kept _ x

    claim_release_effect-Kept :
        (s : Store) → Kept s → Kept (claim_release_effect job.withdrawal_id s).1
    unfolding claim_release_effect
    claim_release_effect-Kept s p =
        elim (claim_by_id-cases job.withdrawal_id releasable set_signing s.withdrawals) [
          | inl e ↦ ap (find_by_id id) e ∙ p
          | inr e ↦
              ap (find_by_id id) e
              ∙ (find_by_id-update_ne job.withdrawal_id id set_signing s.withdrawals other ∙ p)
        ]

    claim_or_reload-Kept :
        (x : Withdrawal) → Keeps Kept (claim_or_reload config env job.withdrawal_id x)
    unfolding claim_or_reload claim_release
    claim_or_reload-Kept x =
        if-Keeps _ (bind-Keeps (act-Keeps _ _ (λ n s p. claim_release_effect-Kept s p)) reloaded)
          (pure-Keeps _)
      where
        reloaded :
            (found : Option Withdrawal) → Keeps Kept (or_reload config env job.withdrawal_id found)
        reloaded none = unfold or_reload load_withdrawal in query-Keeps _ _
        reloaded (some x) = unfold or_reload in pure-Keeps _

    require_node_wallet-Kept : (m : HotWalletMode) → Keeps Kept (require_node_wallet config env m)
    unfolding require_node_wallet
    require_node_wallet-Kept HotWalletMode.node_wallet = skip-Keeps
    require_node_wallet-Kept HotWalletMode.local_hd = throw-Keeps _

    validate_destination-Kept :
        (x : Withdrawal) → Keeps Kept (validate_destination config env job x)
    unfolding validate_destination refuse_address
    validate_destination-Kept x =
        if-Keeps _
          (bind-Keeps (ask-Keeps _ _) (λ valid.
            if-Keeps valid skip-Keeps
              (then-Keeps (modify-Keeps _ _ (λ s p. set_withdrawal-Kept _ s p)) (throw-Keeps _))))
          skip-Keeps

    release_by_status-Kept :
        (st : WithdrawalStatus) (x : Withdrawal)
        → Keeps Kept (release_by_status config env st job x)
    unfolding release_by_status release_open
    release_by_status-Kept WithdrawalStatus.final x = skip-Keeps
    release_by_status-Kept WithdrawalStatus.broadcast x = skip-Keeps
    release_by_status-Kept WithdrawalStatus.failed x = throw-Keeps _
    release_by_status-Kept _ x = then-Keeps (require_node_wallet-Kept _) (
        then-Keeps (validate_destination-Kept x)
          (bind-Keeps (claim_or_reload-Kept x) release_claimed-Kept))

    others-Kept : Keeps Kept (sign_release config env job)
    unfolding sign_release load_withdrawal
    others-Kept = bind-Keeps (query-Keeps _ _) loaded
      where
        loaded : (found : Option Withdrawal) → Keeps Kept (release_loaded config env job found)
        loaded none = unfold release_loaded in skip-Keeps
        loaded (some x) = unfold release_loaded in release_by_status-Kept _ x

  settled-Kept :
      is_settled d.status ≡ true → job.withdrawal_id ≡ id → Keeps Kept (sign_release config env job)
  unfolding sign_release load_withdrawal is_settled release_loaded
  settled-Kept closed same =
      bind-Ensures (λ found s. Kept s × (found ≡ some d))
        (query-Ensures _ _ (λ s p. ((p, ap (λ i. find_by_id i s.withdrawals) same ∙ p), p))) loaded
    where
      stays :
          (st : WithdrawalStatus)
          → is_settled st ≡ true
          → Keeps Kept (release_by_status config env st job d)
      stays WithdrawalStatus.final e = unfold release_by_status in skip-Keeps
      stays WithdrawalStatus.broadcast e = unfold release_by_status in skip-Keeps
      stays WithdrawalStatus.failed e = unfold release_by_status in throw-Keeps _
      stays _ e = cc

      loaded :
          (found : Option Withdrawal)
          → Ensures
              (λ s. Kept s × (found ≡ some d))
              (release_loaded config env job found)
              (λ _. Kept)
              Kept
      loaded none = known-Ensures (λ s p. p.1) (λ e. absurd (cc))
      loaded (some x) =
          known-Ensures (λ s p. p.1)
            (λ e.
              pre-Ensures (λ s p. p.0)
                (subst (λ y. Keeps Kept (release_by_status config env y.status job y))
                  (sym (some-injective _ _ e)) (stays d.status closed)))

  -- A run of the release signer, however it ends, changes no withdrawal but its job's, and leaves
  -- that one too as it was if it is BROADCAST, FINAL or FAILED.
  pub sign_release_final :
      (w : World Store)
      → find_by_id id w.store.withdrawals ≡ some d
      → (job.withdrawal_id ≢ id) ⊎ (is_settled d.status ≡ true)
      → find_by_id id (sign_release config env job w).1.store.withdrawals ≡ some d
  sign_release_final w p (inl other) = run-Ensures (others-Kept other) w p
  sign_release_final w p (inr closed) = elim (Bool-cases (job.withdrawal_id == id)) [
    | inl t ↦
        let same : job.withdrawal_id ≡ id = ground (arith, t) in
        run-Ensures (settled-Kept closed same) w p
    | inr f ↦
        let other : job.withdrawal_id ≢ id = (λ e. ground (arith, f, e)) in
        run-Ensures (others-Kept other) w p
  ]
