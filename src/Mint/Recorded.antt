-- ===== src/Mint/Recorded.antt =====
-- The idempotency that the comments of services/bridge/src/signer/base.ts call critical: once the
-- hash of a mint is on file, no later run sends another.
use faircoin_bridge.Effects.{World}
use faircoin_bridge.Effects.Hoare.{
  Ensures, bind-Ensures, if-Ensures, known-Ensures, pre-Ensures, pure-Ensures, query-Ensures,
  run-Ensures,
}
use faircoin_bridge.Effects.Keeps.{
  Keeps, ask-Keeps, bind-Keeps, if-Keeps, modify-Keeps, pure-Keeps, skip-Keeps, then-Keeps,
  throw-Keeps,
}
use faircoin_bridge.Mint.{
  broadcast_or_reconcile, claim_or_reload, finalize_direct_eoa, load_deposit, mint_hash_of,
  set_deposit, set_failed, set_minted, settle, sign_and_audit, sign_by_mode, sign_by_status,
  sign_claimed, sign_direct_eoa, sign_if_minting, sign_loaded, sign_mint, sign_open,
}
use faircoin_bridge.Models.Deposit.{Deposit, DepositStatus}
use faircoin_bridge.Prelude.{
  List, Option, Option-cases, arith, inl, inr, is_none, none, refl, some, ℕ, ◌&&◌, ◌∙◌, ◌≡◌,
}
use faircoin_bridge.Prelude.Collection.{Collection, find_by_id, find_by_id-update, update_by_id}
use faircoin_bridge.Store.{Alert, Config, Env, Mint, MintJob, MintMode, Receipt, Store, alert}

-- A deposit's hash is on file, and the mints that were sent are `sent`.
pub record OnFile (id h : ℕ) (sent : List Mint) (s : Store) : Type 0 where
  pub recorded : mint_hash_of (find_by_id id s.deposits) ≡ some h
  pub unsent : s.mints ≡ sent

-- A write that leaves the hash of every document alone.
mint_hash_of-update :
    (id : ℕ) (f : Deposit → Deposit) (c : Collection Deposit)
    → ((d : Deposit) → (f d).base_mint_tx_hash ≡ d.base_mint_tx_hash)
    → mint_hash_of (find_by_id id (update_by_id id f c)) ≡ mint_hash_of (find_by_id id c)
mint_hash_of-update id f c h = elim (Option-cases (find_by_id id c)) [
  | inl e ↦ ground (arith, find_by_id-update id id f c)
  | inr (d, e) ↦ ground (arith, find_by_id-update id id f c, h d)
]

module _ (id h : ℕ) (sent : List Mint) where
  set_deposit-OnFile :
      (f : Deposit → Deposit)
      → ((d : Deposit) → (f d).base_mint_tx_hash ≡ d.base_mint_tx_hash)
      → (s : Store) → OnFile id h sent s
      → OnFile id h sent (set_deposit id f s)
  unfolding set_deposit
  set_deposit-OnFile f k s p = record {
    recorded = mint_hash_of-update id f s.deposits k ∙ p.recorded;
    unsent = p.unsent;
  }

  alert-OnFile : (env : Env) (a : Alert) → Keeps (OnFile id h sent) (alert env a)
  unfolding alert
  alert-OnFile env a = modify-Keeps _ _ (λ s p. record { recorded = p.recorded; unsent = p.unsent })

module _ (config : Config) (env : Env) (id h : ℕ) (sent : List Mint) where
  settle-OnFile : (r : Receipt) → Keeps (OnFile id h sent) (settle config env id r)
  unfolding settle set_minted set_failed
  settle-OnFile r =
      if-Keeps r.success (modify-Keeps _ _ (set_deposit-OnFile id h sent _ (λ d. refl))) (
        then-Keeps (modify-Keeps _ _ (set_deposit-OnFile id h sent _ (λ d. refl)))
          (then-Keeps (alert-OnFile id h sent env _) (throw-Keeps _)))

  finalize_direct_eoa-OnFile :
      (tx_hash : ℕ) → Keeps (OnFile id h sent) (finalize_direct_eoa config env id tx_hash)
  unfolding finalize_direct_eoa
  finalize_direct_eoa-OnFile tx_hash = bind-Keeps (ask-Keeps _ _) (λ r. settle-OnFile r)

module _ (config : Config) (env : Env) (job : MintJob) (h : ℕ) (sent : List Mint) where
  broadcast_or_reconcile-OnFile :
      (o : Option ℕ)
      → o ≡ some h
      → Keeps (OnFile job.deposit_id h sent) (broadcast_or_reconcile config env job o)
  unfolding broadcast_or_reconcile
  broadcast_or_reconcile-OnFile none e = cc
  broadcast_or_reconcile-OnFile (some existing) e =
      then-Keeps (finalize_direct_eoa-OnFile config env job.deposit_id h sent existing)
        (pure-Keeps existing)

  -- The claim is not made, and the document in hand is the one that was read.
  claim_or_reload-OnFile :
      (d : Deposit)
      → d.base_mint_tx_hash ≡ some h
      → Ensures
          (OnFile job.deposit_id h sent)
          (claim_or_reload config env job.deposit_id d)
          (λ found s. OnFile job.deposit_id h sent s × (mint_hash_of found ≡ some h))
          (OnFile job.deposit_id h sent)
  unfolding claim_or_reload
  claim_or_reload-OnFile d e =
      if-Ensures (is_none d.base_mint_tx_hash && is_none d.safe_tx_hash)
        (λ unset. absurd (ground arith)) (λ _. pure-Ensures _ (λ s p. (p, e)))

  module _ (mode : config.mint_auth_mode ≡ MintMode.direct_eoa) where
    sign_by_mode-OnFile :
        (m : MintMode) (d : Deposit)
        → m ≡ MintMode.direct_eoa
        → d.base_mint_tx_hash ≡ some h
        → Keeps (OnFile job.deposit_id h sent) (sign_by_mode config env m job d)
    unfolding sign_by_mode sign_direct_eoa
    sign_by_mode-OnFile MintMode.safe_proposal d m e = cc
    sign_by_mode-OnFile MintMode.direct_eoa d m e =
        broadcast_or_reconcile-OnFile d.base_mint_tx_hash e

    sign_and_audit-OnFile :
        (d : Deposit)
        → d.base_mint_tx_hash ≡ some h
        → Keeps (OnFile job.deposit_id h sent) (sign_and_audit config env job d)
    unfolding sign_and_audit
    sign_and_audit-OnFile d e =
        bind-Keeps (sign_by_mode-OnFile config.mint_auth_mode d mode e)
          (λ _. modify-Keeps _ _ (λ s p. record { recorded = p.recorded; unsent = p.unsent }))

    sign_if_minting-OnFile :
        (st : DepositStatus) (d : Deposit)
        → d.base_mint_tx_hash ≡ some h
        → Keeps (OnFile job.deposit_id h sent) (sign_if_minting config env st job d)
    unfolding sign_if_minting
    sign_if_minting-OnFile DepositStatus.minting d e = sign_and_audit-OnFile d e
    sign_if_minting-OnFile _ d e = skip-Keeps

    sign_claimed-OnFile :
        (found : Option Deposit)
        → Ensures
            (λ s. OnFile job.deposit_id h sent s × (mint_hash_of found ≡ some h))
            (sign_claimed config env job found)
            (λ _. OnFile job.deposit_id h sent)
            (OnFile job.deposit_id h sent)
    unfolding sign_claimed
    sign_claimed-OnFile none = pre-Ensures (λ s p. p.0) skip-Keeps
    sign_claimed-OnFile (some d) =
        known-Ensures (λ s p. p.1)
          (λ e. pre-Ensures (λ s p. p.0) (sign_if_minting-OnFile d.status d e))

    sign_by_status-OnFile :
        (st : DepositStatus) (d : Deposit)
        → d.base_mint_tx_hash ≡ some h
        → Keeps (OnFile job.deposit_id h sent) (sign_by_status config env st job d)
    unfolding sign_by_status sign_open
    sign_by_status-OnFile DepositStatus.minted d e = skip-Keeps
    sign_by_status-OnFile DepositStatus.failed d e = throw-Keeps _
    sign_by_status-OnFile _ d e =
        bind-Ensures _ (claim_or_reload-OnFile d e) (λ found. sign_claimed-OnFile found)

    sign_loaded-OnFile :
        (found : Option Deposit)
        → Ensures
            (λ s. OnFile job.deposit_id h sent s × (mint_hash_of found ≡ some h))
            (sign_loaded config env job found)
            (λ _. OnFile job.deposit_id h sent)
            (OnFile job.deposit_id h sent)
    unfolding sign_loaded
    sign_loaded-OnFile none = pre-Ensures (λ s p. p.0) skip-Keeps
    sign_loaded-OnFile (some d) =
        known-Ensures (λ s p. p.1)
          (λ e. pre-Ensures (λ s p. p.0) (sign_by_status-OnFile d.status d e))

    pub sign_mint-OnFile : Keeps (OnFile job.deposit_id h sent) (sign_mint config env job)
    unfolding sign_mint load_deposit
    sign_mint-OnFile =
        bind-Ensures _ (query-Ensures _ _ (λ s p. ((p, p.recorded), p)))
          (λ found. sign_loaded-OnFile found)

    -- Once a deposit's mint hash is on file, a run of the mint signer in direct mode, however its
    -- calls end, sends no mint and leaves that hash on file.
    pub sign_mint_once_recorded :
        (w : World Store)
        → OnFile job.deposit_id h sent w.store
        → OnFile job.deposit_id h sent (sign_mint config env job w).1.store
    sign_mint_once_recorded w p = run-Ensures sign_mint-OnFile w p
