-- ===== src/Mint/Attempts.antt =====
-- Retries of one mint job: BullMQ runs the job again after a throw, and after a crash.
use faircoin_bridge.Effects.{World, modify}
use faircoin_bridge.Effects.Hoare.{
  Ensures, act-Ensures, bind-Ensures, pre-Ensures, run-Ensures, weaken-Ensures,
}
use faircoin_bridge.Effects.Keeps.{
  Keeps, act-Keeps, ask-Keeps, bind-Keeps, catch-Keeps, if-Keeps, modify-Keeps, pure-Keeps,
  query-Keeps, skip-Keeps, then-Ensures, then-Keeps, throw-Keeps,
}
use faircoin_bridge.Effects.Retries.{attempts, attempts-sent, attempts-total, total, unrecorded}
use faircoin_bridge.Mint.{
  broadcast_direct_eoa, broadcast_or_reconcile, claim_effect, claim_mint, claim_or_reload,
  fair_txid_to_bytes32, finalize_direct_eoa, load_deposit, mint_of, mint_on_file, or_reload,
  propose_or_reconcile, propose_transaction, reconcile_proposal, run, safe_proposal_exists,
  send_mint, set_deposit, settle, sign_and_audit, sign_by_mode, sign_by_status, sign_claimed,
  sign_direct_eoa, sign_if_minting, sign_loaded, sign_mint, sign_open, sign_safe_proposal,
  sign_transaction,
}
use faircoin_bridge.Mint.Recorded.{sign_mint_once_recorded}
use faircoin_bridge.Models.Deposit.{Deposit, DepositStatus}
use faircoin_bridge.Prelude.{
  List, Option, ap, inl, inr, length, none, refl, some, ℕ, ◌*◌, ◌+◌, ◌∷◌, ◌≡◌, ◌≤◌, ◌⊎◌,
}
use faircoin_bridge.Store.{
  Action, Alert, Config, Env, Mint, MintJob, MintMode, Receipt, Store, alert, require_wallet,
}

-- The wei of these mints.
abbrev pub minted_wei : List Mint → ℕ
minted_wei l = total (λ m. m.amount) l

module _ (config : Config) (env : Env) (J : List Mint → Type 0) where
  alert-mints : (a : Alert) → Keeps (λ s. J s.mints) (alert env a)
  unfolding alert
  alert-mints a = modify-Keeps _ _ (λ s p. p)

  finalize_direct_eoa-mints :
      (id h : ℕ) → Keeps (λ s. J s.mints) (finalize_direct_eoa config env id h)
  unfolding finalize_direct_eoa settle set_deposit
  finalize_direct_eoa-mints id h = bind-Keeps (ask-Keeps _ _) λ (r : Receipt).
      if-Keeps r.success (modify-Keeps _ _ (λ s p. p))
        (then-Keeps (modify-Keeps _ _ (λ s p. p)) (then-Keeps (alert-mints _) (throw-Keeps _)))

  claim_mint-mints : (id : ℕ) → Keeps (λ s. J s.mints) (claim_mint config env id)
  unfolding claim_mint claim_effect
  claim_mint-mints id = act-Keeps _ _ (λ n s p. p)

  or_reload-mints :
      (id : ℕ) (found : Option Deposit) → Keeps (λ s. J s.mints) (or_reload config env id found)
  unfolding or_reload load_deposit
  or_reload-mints id none = query-Keeps _ _
  or_reload-mints id (some d) = pure-Keeps _

  claim_or_reload-mints :
      (id : ℕ) (d : Deposit) → Keeps (λ s. J s.mints) (claim_or_reload config env id d)
  unfolding claim_or_reload
  claim_or_reload-mints id d =
      if-Keeps _ (bind-Keeps (claim_mint-mints id) (λ found. or_reload-mints id found))
        (pure-Keeps _)

  require_wallet-mints : Keeps (λ s. J s.mints) (require_wallet config)
  unfolding require_wallet
  require_wallet-mints = if-Keeps _ skip-Keeps (throw-Keeps _)

  fair_txid_to_bytes32-mints :
      (txid : ℕ) → Keeps (λ s. J s.mints) (fair_txid_to_bytes32 config env txid)
  unfolding fair_txid_to_bytes32
  fair_txid_to_bytes32-mints txid = if-Keeps _ skip-Keeps (throw-Keeps _)

  set_deposit-mints :
      (id : ℕ) (f : Deposit → Deposit) → Keeps (λ s. J s.mints) (modify env.fate (set_deposit id f))
  unfolding set_deposit
  set_deposit-mints id f = modify-Keeps _ _ (λ s p. p)

  -- Proposing to the Safe sends no mint.
  propose_or_reconcile-mints :
      (job : MintJob) (o : Option ℕ)
      → Keeps (λ s. J s.mints) (propose_or_reconcile config env job o)
  unfolding propose_or_reconcile reconcile_proposal safe_proposal_exists sign_transaction
      propose_transaction
  propose_or_reconcile-mints job (some h) =
      bind-Keeps (catch-Keeps (ask-Keeps _ _) (λ _. pure-Keeps _))
        λ known. if-Keeps known (pure-Keeps _) (then-Keeps (alert-mints _) (throw-Keeps _))
  propose_or_reconcile-mints job none = then-Keeps (fair_txid_to_bytes32-mints _) (
      bind-Keeps (ask-Keeps _ _) λ h. then-Keeps (set_deposit-mints _ _) (
        then-Keeps
          (bind-Keeps (ask-Keeps _ _) (λ signed. if-Keeps signed skip-Keeps (throw-Keeps _)))
          (then-Keeps (modify-Keeps _ _ (λ s p. p)) (then-Keeps (alert-mints _) (pure-Keeps _)))))

  sign_safe_proposal-mints :
      (job : MintJob) (d : Deposit) → Keeps (λ s. J s.mints) (sign_safe_proposal config env job d)
  unfolding sign_safe_proposal
  sign_safe_proposal-mints job d =
      then-Keeps require_wallet-mints
        (then-Keeps (ask-Keeps _ _) (propose_or_reconcile-mints job _))

module _ (config : Config) (env : Env) (job : MintJob) (before : List Mint) where
  -- At most this job's mint has been sent.
  abbrev AtMostOne : List Mint → Type 0
  AtMostOne l = (l ≡ before) ⊎ (l ≡ mint_of job ∷ before)

  abbrev Sent : Store → Type 0
  Sent s = AtMostOne s.mints

  abbrev Unsent : Store → Type 0
  Unsent s = s.mints ≡ before

  abbrev SendsOnce : {A : Type 0} → Action A → Type 0
  SendsOnce m = Ensures Unsent m (λ _. Sent) Sent

  -- What sends nothing may come first.
  quietly : {A : Type 0} {m : Action A} → Keeps Unsent m → Ensures Unsent m (λ _. Unsent) Sent
  quietly k = weaken-Ensures (λ s p. p) (λ _ s p. p) (λ s p. inl p) k

  -- Nothing after it sends another.
  rest : {A : Type 0} {m : Action A} → Keeps Sent m → SendsOnce m
  rest k = pre-Ensures (λ s p. inl p) k

  broadcast_direct_eoa-Sent : SendsOnce (broadcast_direct_eoa config env job)
  unfolding broadcast_direct_eoa send_mint
  broadcast_direct_eoa-Sent =
      then-Ensures Unsent (quietly (require_wallet-mints config env (λ l. l ≡ before))) (
        then-Ensures Unsent
          (quietly (fair_txid_to_bytes32-mints config env (λ l. l ≡ before) job.fair_txid))
          (act-Ensures _ _
            (λ n s p. let sent = ap (λ l. mint_of job ∷ l) p in (inr sent, inl p, inr sent))))

  broadcast_or_reconcile-Sent : (o : Option ℕ) → SendsOnce (broadcast_or_reconcile config env job o)
  unfolding broadcast_or_reconcile
  broadcast_or_reconcile-Sent (some h) =
      rest (then-Keeps (finalize_direct_eoa-mints config env AtMostOne _ h) (pure-Keeps h))
  broadcast_or_reconcile-Sent none =
      bind-Ensures (λ _. Sent) broadcast_direct_eoa-Sent
        λ h.
          then-Keeps (set_deposit-mints config env AtMostOne _ _)
            (then-Keeps (finalize_direct_eoa-mints config env AtMostOne _ h) (pure-Keeps h))

  sign_by_mode-Sent : (m : MintMode) (d : Deposit) → SendsOnce (sign_by_mode config env m job d)
  unfolding sign_by_mode sign_direct_eoa
  sign_by_mode-Sent MintMode.safe_proposal d =
      rest (sign_safe_proposal-mints config env AtMostOne job d)
  sign_by_mode-Sent MintMode.direct_eoa d = broadcast_or_reconcile-Sent _

  sign_and_audit-Sent : (d : Deposit) → SendsOnce (sign_and_audit config env job d)
  unfolding sign_and_audit
  sign_and_audit-Sent d =
      bind-Ensures (λ _. Sent) (sign_by_mode-Sent _ d) (λ h. modify-Keeps _ _ (λ s p. p))

  sign_if_minting-Sent :
      (st : DepositStatus) (d : Deposit) → SendsOnce (sign_if_minting config env st job d)
  unfolding sign_if_minting
  sign_if_minting-Sent DepositStatus.minting d = sign_and_audit-Sent d
  sign_if_minting-Sent _ d = rest skip-Keeps

  sign_claimed-Sent : (found : Option Deposit) → SendsOnce (sign_claimed config env job found)
  unfolding sign_claimed
  sign_claimed-Sent none = rest skip-Keeps
  sign_claimed-Sent (some d) = sign_if_minting-Sent _ d

  sign_by_status-Sent :
      (st : DepositStatus) (d : Deposit) → SendsOnce (sign_by_status config env st job d)
  unfolding sign_by_status sign_open
  sign_by_status-Sent DepositStatus.minted d = rest skip-Keeps
  sign_by_status-Sent DepositStatus.failed d = rest (throw-Keeps _)
  sign_by_status-Sent _ d =
      bind-Ensures (λ _. Unsent) (quietly (claim_or_reload-mints config env (λ l. l ≡ before) _ d))
        (λ found. sign_claimed-Sent found)

  sign_loaded-Sent : (found : Option Deposit) → SendsOnce (sign_loaded config env job found)
  unfolding sign_loaded
  sign_loaded-Sent none = rest skip-Keeps
  sign_loaded-Sent (some d) = sign_by_status-Sent _ d

  sign_mint-Sent : SendsOnce (sign_mint config env job)
  unfolding sign_mint load_deposit
  sign_mint-Sent =
      bind-Ensures (λ _. Unsent) (quietly (query-Keeps _ _)) (λ found. sign_loaded-Sent found)

module _ (config : Config) (env : Env) (job : MintJob) where
  run_once :
      (w : World Store)
      → ((run config env job w).store.mints ≡ w.store.mints)
        ⊎ ((run config env job w).store.mints ≡ mint_of job ∷ w.store.mints)
  unfolding run
  run_once w = run-Ensures (sign_mint-Sent config env job w.store.mints) w refl

  module _ (mode : config.mint_auth_mode ≡ MintMode.direct_eoa) where
    run-kept :
        (w : World Store) (h : ℕ)
        → mint_on_file job w.store ≡ some h
        → (mint_on_file job (run config env job w).store ≡ some h)
          × ((run config env job w).store.mints ≡ w.store.mints)
    unfolding run mint_on_file
    run-kept w h p =
        let kept =
          sign_mint_once_recorded config env job h w.store.mints mode w
            (record { recorded = p; unsent = refl }) in
        (kept.recorded, kept.unsent)

    -- However often a mint job runs in direct mode, and however each run ends, it sends at most one
    -- mint, and at most one more for each run that sent a mint and left no hash on file.
    pub attempts-mints :
        (n : ℕ) (w : World Store)
        → length (attempts (run config env job) n w).store.mints
          ≤ length w.store.mints
            + 1
            + unrecorded (run config env job) (λ s. s.mints) (mint_on_file job) n w
    attempts-mints n w =
        attempts-sent _ _ _
          (λ w. elim (run_once w) [ inl e ↦ inl e | inr e ↦ inr (mint_of job, e) ]) run-kept n w

    pub attempts-minted :
        (n : ℕ) (w : World Store)
        → minted_wei (attempts (run config env job) n w).store.mints
          ≤ minted_wei w.store.mints
            + (1 + unrecorded (run config env job) (λ s. s.mints) (mint_on_file job) n w)
              * job.amount_wei
    unfolding mint_of
    attempts-minted n w =
        attempts-total (run config env job) (λ s. s.mints) (mint_on_file job) (λ m. m.amount)
          (mint_of job) run_once run-kept n w
