-- ===== src/Mint/Proposals.antt =====
-- Retries of one mint job in Safe mode, where the hash is on file before the proposal is made.
use faircoin_bridge.Effects.{World}
use faircoin_bridge.Effects.Hoare.{
  Ensures, bind-Ensures, if-Ensures, known-Ensures, modify-Ensures, pre-Ensures, pure-Ensures,
  query-Ensures, run-Ensures, weaken-Ensures,
}
use faircoin_bridge.Effects.Keeps.{
  Keeps, act-Keeps, ask-Keeps, bind-Keeps, catch-Keeps, if-Keeps, modify-Keeps, pure-Keeps,
  query-Keeps, skip-Keeps, then-Ensures, then-Keeps, throw-Keeps,
}
use faircoin_bridge.Effects.Retries.{attempts}
use faircoin_bridge.Mint.{
  claim_effect, claim_mint, claim_or_reload, fair_txid_to_bytes32, load_deposit, mint_of, or_reload,
  propose_or_reconcile, propose_transaction, reconcile_proposal, run, safe_hash_of,
  safe_proposal_exists, set_deposit, set_minting, set_safe_hash, sign_and_audit, sign_by_mode,
  sign_by_status, sign_claimed, sign_if_minting, sign_loaded, sign_mint, sign_open,
  sign_safe_proposal, sign_transaction,
}
use faircoin_bridge.Models.Deposit.{Deposit, DepositStatus}
use faircoin_bridge.Prelude.{
  List, Option, Option-cases, ap, arith, inl, inr, is_none, length, none, refl, some, suc, zero, ℕ,
  ◌&&◌, ◌+◌, ◌∷◌, ◌≡◌, ◌≢◌, ◌≤◌, ◌⊎◌,
}
use faircoin_bridge.Prelude.Collection.{
  claim_by_id, find_by_id, find_by_id-update, find_by_id-update_self,
}
use faircoin_bridge.Store.{
  Action, Alert, Config, Env, Mint, MintJob, MintMode, Store, alert, require_wallet,
}

-- The hash of a Safe proposal is on file, and the proposals that were made are `made`.
pub record IsProposed (id h : ℕ) (made : List Mint) (s : Store) : Type 0 where
  pub recorded : safe_hash_of (find_by_id id s.deposits) ≡ some h
  pub unproposed : s.proposals ≡ made

module _ (config : Config) (env : Env) (job : MintJob) (made : List Mint) where
  alert-IsProposed : (h : ℕ) (a : Alert) → Keeps (IsProposed job.deposit_id h made) (alert env a)
  unfolding alert
  alert-IsProposed h a =
      modify-Keeps _ _ (λ s p. record { recorded = p.recorded; unproposed = p.unproposed })

  module _ (h : ℕ) where
    propose_or_reconcile-IsProposed :
        (o : Option ℕ)
        → o ≡ some h
        → Keeps (IsProposed job.deposit_id h made) (propose_or_reconcile config env job o)
    unfolding propose_or_reconcile reconcile_proposal safe_proposal_exists
    propose_or_reconcile-IsProposed none e = cc
    propose_or_reconcile-IsProposed (some existing) e =
        bind-Keeps (catch-Keeps (ask-Keeps _ _) (λ _. pure-Keeps _))
          λ known. if-Keeps known (pure-Keeps _) (then-Keeps (alert-IsProposed h _) (throw-Keeps _))

    sign_by_mode-IsProposed :
        (m : MintMode) (d : Deposit)
        → m ≡ MintMode.safe_proposal
        → d.safe_tx_hash ≡ some h
        → Keeps (IsProposed job.deposit_id h made) (sign_by_mode config env m job d)
    unfolding sign_by_mode sign_safe_proposal require_wallet
    sign_by_mode-IsProposed MintMode.direct_eoa d m e = cc
    sign_by_mode-IsProposed MintMode.safe_proposal d m e =
        then-Keeps (if-Keeps _ skip-Keeps (throw-Keeps _))
          (then-Keeps (ask-Keeps _ _) (propose_or_reconcile-IsProposed d.safe_tx_hash e))

    claim_or_reload-IsProposed :
        (d : Deposit)
        → d.safe_tx_hash ≡ some h
        → Ensures
            (IsProposed job.deposit_id h made)
            (claim_or_reload config env job.deposit_id d)
            (λ found s. IsProposed job.deposit_id h made s × (safe_hash_of found ≡ some h))
            (IsProposed job.deposit_id h made)
    unfolding claim_or_reload
    claim_or_reload-IsProposed d e =
        if-Ensures (is_none d.base_mint_tx_hash && is_none d.safe_tx_hash)
          (λ unset. absurd (ground arith)) (λ _. pure-Ensures _ (λ s p. (p, e)))

    module _ (mode : config.mint_auth_mode ≡ MintMode.safe_proposal) where
      sign_if_minting-IsProposed :
          (st : DepositStatus) (d : Deposit)
          → d.safe_tx_hash ≡ some h
          → Keeps (IsProposed job.deposit_id h made) (sign_if_minting config env st job d)
      unfolding sign_if_minting sign_and_audit
      sign_if_minting-IsProposed DepositStatus.minting d e =
          bind-Keeps (sign_by_mode-IsProposed config.mint_auth_mode d mode e) (λ _.
            modify-Keeps _ _ (λ s p. record { recorded = p.recorded; unproposed = p.unproposed }))
      sign_if_minting-IsProposed _ d e = skip-Keeps

      sign_claimed-IsProposed :
          (found : Option Deposit)
          → Ensures
              (λ s. IsProposed job.deposit_id h made s × (safe_hash_of found ≡ some h))
              (sign_claimed config env job found)
              (λ _. IsProposed job.deposit_id h made)
              (IsProposed job.deposit_id h made)
      unfolding sign_claimed
      sign_claimed-IsProposed none = pre-Ensures (λ s p. p.0) skip-Keeps
      sign_claimed-IsProposed (some d) =
          known-Ensures (λ s p. p.1)
            (λ e. pre-Ensures (λ s p. p.0) (sign_if_minting-IsProposed d.status d e))

      sign_by_status-IsProposed :
          (st : DepositStatus) (d : Deposit)
          → d.safe_tx_hash ≡ some h
          → Keeps (IsProposed job.deposit_id h made) (sign_by_status config env st job d)
      unfolding sign_by_status sign_open
      sign_by_status-IsProposed DepositStatus.minted d e = skip-Keeps
      sign_by_status-IsProposed DepositStatus.failed d e = throw-Keeps _
      sign_by_status-IsProposed _ d e =
          bind-Ensures _ (claim_or_reload-IsProposed d e) (λ found. sign_claimed-IsProposed found)

      sign_loaded-IsProposed :
          (found : Option Deposit)
          → Ensures
              (λ s. IsProposed job.deposit_id h made s × (safe_hash_of found ≡ some h))
              (sign_loaded config env job found)
              (λ _. IsProposed job.deposit_id h made)
              (IsProposed job.deposit_id h made)
      unfolding sign_loaded
      sign_loaded-IsProposed none = pre-Ensures (λ s p. p.0) skip-Keeps
      sign_loaded-IsProposed (some d) =
          known-Ensures (λ s p. p.1)
            (λ e. pre-Ensures (λ s p. p.0) (sign_by_status-IsProposed d.status d e))

      -- Once a deposit's Safe hash is on file, a run of the mint signer in Safe mode, however its
      -- calls end, makes no proposal and leaves that hash on file.
      pub sign_mint-IsProposed : Keeps (IsProposed job.deposit_id h made) (sign_mint config env job)
      unfolding sign_mint load_deposit
      sign_mint-IsProposed =
          bind-Ensures _ (query-Ensures _ _ (λ s p. ((p, p.recorded), p)))
            (λ found. sign_loaded-IsProposed found)

-- The first proposal.
module _ (config : Config) (env : Env) (job : MintJob) (made : List Mint) where
  abbrev Unproposed : Store → Type 0
  Unproposed s = s.proposals ≡ made

  -- The document of the job is in the database.
  abbrev Stored : Store → Type 0
  Stored s = (s.proposals ≡ made) × (find_by_id job.deposit_id s.deposits ≢ none)

  abbrev HasSafeHash : Store → Type 0
  HasSafeHash s = (h : ℕ) × (safe_hash_of (find_by_id job.deposit_id s.deposits) ≡ some h)

  abbrev AtMostOne : Store → Type 0
  AtMostOne s = (s.proposals ≡ made) ⊎ ((s.proposals ≡ mint_of job ∷ made) × HasSafeHash s)

  record_hash :
      (h : ℕ) (s : Store)
      → find_by_id job.deposit_id s.deposits ≢ none
      → HasSafeHash (set_deposit job.deposit_id (set_safe_hash h) s)
  unfolding set_deposit set_safe_hash
  record_hash h s stored = elim (Option-cases (find_by_id job.deposit_id s.deposits)) [
    | inl e ↦ absurd (stored e)
    | inr (d, e) ↦
        (h, ap safe_hash_of (find_by_id-update_self job.deposit_id (set_safe_hash h) s.deposits e))
  ]

  claim_stored :
      (s : Store)
      → find_by_id job.deposit_id s.deposits ≢ none
      → find_by_id job.deposit_id (claim_effect job.deposit_id s).1.deposits ≢ none
  unfolding claim_effect claim_by_id
  claim_stored s stored =
      ground (arith, find_by_id-update job.deposit_id job.deposit_id set_minting s.deposits)

  abbrev Recorded : Store → Type 0
  Recorded s = (s.proposals ≡ made) × HasSafeHash s

  before_hash :
      {A : Type 0} {m : Action A} → Keeps Stored m → Ensures Stored m (λ _. Stored) AtMostOne
  before_hash k = weaken-Ensures (λ s p. p) (λ _ s p. p) (λ s p. inl p.0) k

  before_proposal :
      {A : Type 0} {m : Action A} → Keeps Recorded m → Ensures Recorded m (λ _. Recorded) AtMostOne
  before_proposal k = weaken-Ensures (λ s p. p) (λ _ s p. p) (λ s p. inl p.0) k

  -- Nothing is proposed from here on.
  at_rest :
      {A : Type 0} {m : Action A} → Keeps Stored m → Ensures Stored m (λ _. AtMostOne) AtMostOne
  at_rest k = weaken-Ensures (λ s p. p) (λ _ s p. inl p.0) (λ s p. inl p.0) k

  alert-Stored : (a : Alert) → Keeps Stored (alert env a)
  unfolding alert
  alert-Stored a = modify-Keeps _ _ (λ s p. p)

  alert-AtMostOne : (a : Alert) → Keeps AtMostOne (alert env a)
  unfolding alert
  alert-AtMostOne a = modify-Keeps _ _ (λ s p. p)

  propose-AtMostOne :
      Ensures Recorded (propose_transaction config env job) (λ _. AtMostOne) AtMostOne
  unfolding propose_transaction
  propose-AtMostOne = modify-Ensures _ _ (λ s p.
      let made_one = ap (λ l. mint_of job ∷ l) p.0 in
      (inr (made_one, p.1), inl p.0, inr (made_one, p.1)))

  propose_or_reconcile-AtMostOne :
      (o : Option ℕ)
      → Ensures Stored (propose_or_reconcile config env job o) (λ _. AtMostOne) AtMostOne
  unfolding propose_or_reconcile reconcile_proposal safe_proposal_exists fair_txid_to_bytes32
      sign_transaction
  propose_or_reconcile-AtMostOne (some h) = at_rest (
      bind-Keeps (catch-Keeps (ask-Keeps _ _) (λ _. pure-Keeps _))
        λ known. if-Keeps known (pure-Keeps _) (then-Keeps (alert-Stored _) (throw-Keeps _)))
  propose_or_reconcile-AtMostOne none =
      then-Ensures Stored (before_hash (if-Keeps _ skip-Keeps (throw-Keeps _))) (
        bind-Ensures (λ _. Stored) (before_hash (ask-Keeps _ _))
          λ h.
            then-Ensures Recorded
              (modify-Ensures _ _ (λ s p.
                let r = record_hash h s p.1 in
                ((unchanged h s p.0, r), inl p.0, inl (unchanged h s p.0))))
              (then-Ensures Recorded
                (before_proposal (
                  bind-Keeps (ask-Keeps _ _)
                    (λ signed. if-Keeps signed skip-Keeps (throw-Keeps _))))
                (then-Ensures AtMostOne propose-AtMostOne
                  (then-Keeps (alert-AtMostOne _) (pure-Keeps h)))))
    where
      unchanged :
          (h : ℕ) (s : Store)
          → s.proposals ≡ made
          → (set_deposit job.deposit_id (set_safe_hash h) s).proposals ≡ made
      unchanged h s p = unfold set_deposit in p

  sign_by_mode-AtMostOne :
      (m : MintMode) (d : Deposit)
      → m ≡ MintMode.safe_proposal
      → Ensures Stored (sign_by_mode config env m job d) (λ _. AtMostOne) AtMostOne
  unfolding sign_by_mode sign_safe_proposal require_wallet
  sign_by_mode-AtMostOne MintMode.direct_eoa d m = cc
  sign_by_mode-AtMostOne MintMode.safe_proposal d m =
      then-Ensures Stored (before_hash (if-Keeps _ skip-Keeps (throw-Keeps _))) (
        then-Ensures Stored (before_hash (ask-Keeps _ _))
          (propose_or_reconcile-AtMostOne d.safe_tx_hash))

  claim_or_reload-Stored :
      (d : Deposit) → Keeps Stored (claim_or_reload config env job.deposit_id d)
  unfolding claim_or_reload claim_mint or_reload load_deposit
  claim_or_reload-Stored d =
      if-Keeps _
        (bind-Keeps (act-Keeps _ _ (λ n s p. (unproposed s p.0, claim_stored s p.1))) reload)
        (pure-Keeps _)
    where
      unproposed :
          (s : Store) → s.proposals ≡ made → (claim_effect job.deposit_id s).1.proposals ≡ made
      unproposed s p = unfold claim_effect in p

      reload : (found : Option Deposit) → Keeps Stored (or_reload config env job.deposit_id found)
      reload none = query-Keeps _ _
      reload (some d') = pure-Keeps _

  module _ (mode : config.mint_auth_mode ≡ MintMode.safe_proposal) where
    sign_if_minting-AtMostOne :
        (st : DepositStatus) (d : Deposit)
        → Ensures Stored (sign_if_minting config env st job d) (λ _. AtMostOne) AtMostOne
    unfolding sign_if_minting sign_and_audit
    sign_if_minting-AtMostOne DepositStatus.minting d =
        bind-Ensures (λ _. AtMostOne) (sign_by_mode-AtMostOne config.mint_auth_mode d mode)
          (λ _. modify-Keeps _ _ (λ s p. p))
    sign_if_minting-AtMostOne _ d = at_rest skip-Keeps

    sign_claimed-AtMostOne :
        (found : Option Deposit)
        → Ensures Stored (sign_claimed config env job found) (λ _. AtMostOne) AtMostOne
    unfolding sign_claimed
    sign_claimed-AtMostOne none = at_rest skip-Keeps
    sign_claimed-AtMostOne (some d) = sign_if_minting-AtMostOne d.status d

    sign_by_status-AtMostOne :
        (st : DepositStatus) (d : Deposit)
        → Ensures Stored (sign_by_status config env st job d) (λ _. AtMostOne) AtMostOne
    unfolding sign_by_status sign_open
    sign_by_status-AtMostOne DepositStatus.minted d = at_rest skip-Keeps
    sign_by_status-AtMostOne DepositStatus.failed d = at_rest (throw-Keeps _)
    sign_by_status-AtMostOne _ d =
        bind-Ensures (λ _. Stored) (before_hash (claim_or_reload-Stored d))
          (λ found. sign_claimed-AtMostOne found)

    sign_loaded-AtMostOne :
        (found : Option Deposit)
        → Ensures
            (λ s. Unproposed s × (found ≡ find_by_id job.deposit_id s.deposits))
            (sign_loaded config env job found)
            (λ _. AtMostOne)
            AtMostOne
    unfolding sign_loaded
    sign_loaded-AtMostOne none =
        weaken-Ensures (λ s p. p.0) (λ _ s p. inl p) (λ s p. inl p) skip-Keeps
    sign_loaded-AtMostOne (some d) =
        pre-Ensures (λ s p. (p.0, rw (← p.1) (λ e. cc))) (sign_by_status-AtMostOne d.status d)

    sign_mint-AtMostOne : Ensures Unproposed (sign_mint config env job) (λ _. AtMostOne) AtMostOne
    unfolding sign_mint load_deposit
    sign_mint-AtMostOne =
        bind-Ensures _ (query-Ensures _ _ (λ s p. ((p, refl), inl p)))
          (λ found. sign_loaded-AtMostOne found)

module _ (config : Config) (env : Env) (job : MintJob)
    (mode : config.mint_auth_mode ≡ MintMode.safe_proposal) where
  attempts-IsProposed :
      (n h : ℕ) (made : List Mint) (w : World Store)
      → IsProposed job.deposit_id h made w.store
      → IsProposed job.deposit_id h made (attempts (run config env job) n w).store
  unfolding attempts run
  attempts-IsProposed zero h made w p = p
  attempts-IsProposed (suc n) h made w p =
      attempts-IsProposed n h made (run config env job w)
        (run-Ensures (sign_mint-IsProposed config env job made h mode) w p)

  -- However often a mint job runs in Safe mode, and however each run ends, it makes at most one
  -- proposal.
  pub attempts-proposals :
      (n : ℕ) (w : World Store)
      → length (attempts (run config env job) n w).store.proposals ≤ length w.store.proposals + 1
  unfolding attempts run
  attempts-proposals zero w = omega arith
  attempts-proposals (suc n) w =
      elim (run-Ensures (sign_mint-AtMostOne config env job w.store.proposals mode) w refl) [
        | inl same ↦ omega (arith, attempts-proposals n (run config env job w), ap length same)
        | inr (made, (h, recorded)) ↦ omega (
          arith,
          ap length
              (attempts-IsProposed n h _ (run config env job w)
                (record { recorded = recorded; unproposed = made })).unproposed,
        )
      ]
