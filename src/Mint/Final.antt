-- ===== src/Mint/Final.antt =====
-- Which deposits a run of the mint signer leaves alone (services/bridge/src/signer/base.ts).
use faircoin_bridge.Effects.{World, modify}
use faircoin_bridge.Effects.Hoare.{
  Ensures, bind-Ensures, known-Ensures, pre-Ensures, query-Ensures, run-Ensures,
}
use faircoin_bridge.Effects.Keeps.{
  Keeps, act-Keeps, ask-Keeps, bind-Keeps, catch-Keeps, if-Keeps, modify-Keeps, pure-Keeps,
  query-Keeps, skip-Keeps, then-Keeps, throw-Keeps,
}
use faircoin_bridge.Mint.{
  broadcast_direct_eoa, broadcast_or_reconcile, claim_effect, claim_mint, claim_or_reload,
  claimable, fair_txid_to_bytes32, finalize_direct_eoa, load_deposit, or_reload,
  propose_or_reconcile, propose_transaction, reconcile_proposal, safe_proposal_exists, send_mint,
  set_deposit, set_minting, settle, sign_and_audit, sign_by_mode, sign_by_status, sign_claimed,
  sign_direct_eoa, sign_if_minting, sign_loaded, sign_mint, sign_open, sign_safe_proposal,
  sign_transaction,
}
use faircoin_bridge.Models.Deposit.{Deposit, DepositStatus}
use faircoin_bridge.Prelude.{
  Bool, Bool-cases, Option, ap, arith, false, inl, inr, none, some, some-injective, subst, sym,
  true, ℕ, ◌==◌, ◌∙◌, ◌≡◌, ◌≢◌, ◌⊎◌,
}
use faircoin_bridge.Prelude.Collection.{claim_by_id-cases, find_by_id, find_by_id-update_ne}
use faircoin_bridge.Store.{
  Alert, Config, Env, MintJob, MintMode, Receipt, Store, alert, require_wallet,
}

-- No run leads out of these.
unfoldable pub is_final : DepositStatus → Bool
is_final DepositStatus.minted = true
is_final DepositStatus.failed = true
is_final _ = false

module _ (config : Config) (env : Env) (job : MintJob) (id : ℕ) (d : Deposit) where
  abbrev Kept : Store → Type 0
  Kept s = find_by_id id s.deposits ≡ some d

  module _ (other : job.deposit_id ≢ id) where
    set_deposit-Kept :
        (f : Deposit → Deposit) → Keeps Kept (modify env.fate (set_deposit job.deposit_id f))
    unfolding set_deposit
    set_deposit-Kept f =
        modify-Keeps _ _ (λ s p. find_by_id-update_ne job.deposit_id id f s.deposits other ∙ p)

    alert-Kept : (a : Alert) → Keeps Kept (alert env a)
    unfolding alert
    alert-Kept a = modify-Keeps _ _ (λ s p. p)

    fair_txid_to_bytes32-Kept : Keeps Kept (fair_txid_to_bytes32 config env job.fair_txid)
    unfolding fair_txid_to_bytes32
    fair_txid_to_bytes32-Kept = if-Keeps _ skip-Keeps (throw-Keeps _)

    require_wallet-Kept : Keeps Kept (require_wallet config)
    unfolding require_wallet
    require_wallet-Kept = if-Keeps _ skip-Keeps (throw-Keeps _)

    finalize-Kept : (h : ℕ) → Keeps Kept (finalize_direct_eoa config env job.deposit_id h)
    unfolding finalize_direct_eoa settle
    finalize-Kept h = bind-Keeps (ask-Keeps _ _) (λ (r : Receipt).
        if-Keeps r.success (set_deposit-Kept _)
          (then-Keeps (set_deposit-Kept _) (then-Keeps (alert-Kept _) (throw-Keeps _))))

    broadcast_or_reconcile-Kept :
        (o : Option ℕ) → Keeps Kept (broadcast_or_reconcile config env job o)
    unfolding broadcast_or_reconcile broadcast_direct_eoa send_mint
    broadcast_or_reconcile-Kept (some h) = then-Keeps (finalize-Kept h) (pure-Keeps h)
    broadcast_or_reconcile-Kept none =
        bind-Keeps
          (then-Keeps require_wallet-Kept
            (then-Keeps fair_txid_to_bytes32-Kept (act-Keeps _ _ (λ n s p. p))))
          (λ h. then-Keeps (set_deposit-Kept _) (then-Keeps (finalize-Kept h) (pure-Keeps h)))

    propose_or_reconcile-Kept : (o : Option ℕ) → Keeps Kept (propose_or_reconcile config env job o)
    unfolding propose_or_reconcile reconcile_proposal safe_proposal_exists sign_transaction
        propose_transaction
    propose_or_reconcile-Kept (some h) =
        bind-Keeps (catch-Keeps (ask-Keeps _ _) (λ _. pure-Keeps _))
          (λ known. if-Keeps known (pure-Keeps _) (then-Keeps (alert-Kept _) (throw-Keeps _)))
    propose_or_reconcile-Kept none = then-Keeps fair_txid_to_bytes32-Kept (
        bind-Keeps (ask-Keeps _ _) (λ h. then-Keeps (set_deposit-Kept _) (
          then-Keeps
            (bind-Keeps (ask-Keeps _ _) (λ signed. if-Keeps signed skip-Keeps (throw-Keeps _)))
            (then-Keeps (modify-Keeps _ _ (λ s p. p)) (then-Keeps (alert-Kept _) (pure-Keeps _))))))

    sign_by_mode-Kept : (m : MintMode) (x : Deposit) → Keeps Kept (sign_by_mode config env m job x)
    unfolding sign_by_mode sign_direct_eoa sign_safe_proposal
    sign_by_mode-Kept MintMode.safe_proposal x =
        then-Keeps require_wallet-Kept (then-Keeps (ask-Keeps _ _) (propose_or_reconcile-Kept _))
    sign_by_mode-Kept MintMode.direct_eoa x = broadcast_or_reconcile-Kept _

    sign_if_minting-Kept :
        (st : DepositStatus) (x : Deposit) → Keeps Kept (sign_if_minting config env st job x)
    unfolding sign_if_minting sign_and_audit
    sign_if_minting-Kept DepositStatus.minting x =
        bind-Keeps (sign_by_mode-Kept _ x) (λ h. modify-Keeps _ _ (λ s p. p))
    sign_if_minting-Kept _ x = skip-Keeps

    sign_claimed-Kept : (found : Option Deposit) → Keeps Kept (sign_claimed config env job found)
    unfolding sign_claimed
    sign_claimed-Kept none = skip-Keeps
    sign_claimed-Kept (some x) = sign_if_minting-Kept _ x

    claim_effect-Kept : (s : Store) → Kept s → Kept (claim_effect job.deposit_id s).1
    unfolding claim_effect
    claim_effect-Kept s p =
        elim (claim_by_id-cases job.deposit_id claimable set_minting s.deposits) [
          | inl e ↦ ap (find_by_id id) e ∙ p
          | inr e ↦
              ap (find_by_id id) e
              ∙ (find_by_id-update_ne job.deposit_id id set_minting s.deposits other ∙ p)
        ]

    claim_or_reload-Kept : (x : Deposit) → Keeps Kept (claim_or_reload config env job.deposit_id x)
    unfolding claim_or_reload claim_mint
    claim_or_reload-Kept x =
        if-Keeps _ (bind-Keeps (act-Keeps _ _ (λ n s p. claim_effect-Kept s p)) reloaded)
          (pure-Keeps _)
      where
        reloaded : (found : Option Deposit) → Keeps Kept (or_reload config env job.deposit_id found)
        reloaded none = unfold or_reload load_deposit in query-Keeps _ _
        reloaded (some x) = unfold or_reload in pure-Keeps _

    sign_by_status-Kept :
        (st : DepositStatus) (x : Deposit) → Keeps Kept (sign_by_status config env st job x)
    unfolding sign_by_status sign_open
    sign_by_status-Kept DepositStatus.minted x = skip-Keeps
    sign_by_status-Kept DepositStatus.failed x = throw-Keeps _
    sign_by_status-Kept _ x = bind-Keeps (claim_or_reload-Kept x) sign_claimed-Kept

    others-Kept : Keeps Kept (sign_mint config env job)
    unfolding sign_mint load_deposit
    others-Kept = bind-Keeps (query-Keeps _ _) loaded
      where
        loaded : (found : Option Deposit) → Keeps Kept (sign_loaded config env job found)
        loaded none = unfold sign_loaded in skip-Keeps
        loaded (some x) = unfold sign_loaded in sign_by_status-Kept _ x

  final-Kept :
      is_final d.status ≡ true → job.deposit_id ≡ id → Keeps Kept (sign_mint config env job)
  unfolding sign_mint load_deposit is_final sign_loaded
  final-Kept closed same =
      bind-Ensures (λ found s. Kept s × (found ≡ some d))
        (query-Ensures _ _ (λ s p. ((p, ap (λ i. find_by_id i s.deposits) same ∙ p), p))) loaded
    where
      stays :
          (st : DepositStatus)
          → is_final st ≡ true
          → Keeps Kept (sign_by_status config env st job d)
      stays DepositStatus.minted e = unfold sign_by_status in skip-Keeps
      stays DepositStatus.failed e = unfold sign_by_status in throw-Keeps _
      stays _ e = cc

      loaded :
          (found : Option Deposit)
          → Ensures
              (λ s. Kept s × (found ≡ some d))
              (sign_loaded config env job found)
              (λ _. Kept)
              Kept
      loaded none = known-Ensures (λ s p. p.1) (λ e. absurd (cc))
      loaded (some x) =
          known-Ensures (λ s p. p.1)
            (λ e.
              pre-Ensures (λ s p. p.0)
                (subst (λ y. Keeps Kept (sign_by_status config env y.status job y))
                  (sym (some-injective _ _ e)) (stays d.status closed)))

  -- A run of the mint signer, in either mode and however it ends, changes no deposit but its job's,
  -- and leaves that one too as it was if it is MINTED or FAILED.
  pub sign_mint_final :
      (w : World Store)
      → find_by_id id w.store.deposits ≡ some d
      → (job.deposit_id ≢ id) ⊎ (is_final d.status ≡ true)
      → find_by_id id (sign_mint config env job w).1.store.deposits ≡ some d
  sign_mint_final w p (inl other) = run-Ensures (others-Kept other) w p
  sign_mint_final w p (inr closed) = elim (Bool-cases (job.deposit_id == id)) [
    | inl t ↦
        let same : job.deposit_id ≡ id = ground (arith, t) in
        run-Ensures (final-Kept closed same) w p
    | inr f ↦
        let other : job.deposit_id ≢ id = (λ e. ground (arith, f, e)) in
        run-Ensures (others-Kept other) w p
  ]
