-- ===== src/Mint/Success.antt =====
-- A mint job in direct mode where no call fails.
use faircoin_bridge.Effects.{Fate, World, done}
use faircoin_bridge.Effects.Hoare.{
  bind-Ensures, if-Ensures, known-Ensures, pre-Ensures, pure-Ensures, skip-Ensures,
}
use faircoin_bridge.Effects.Keeps.{then-Ensures}
use faircoin_bridge.Effects.Returns.{
  Returns, Returns-done, act-Returns, ask-Returns, modify-Returns, query-Returns,
}
use faircoin_bridge.Mint.{
  broadcast_direct_eoa, broadcast_or_reconcile, claim_effect, claim_mint, claim_or_reload,
  claimable, claimable_status, fair_txid_to_bytes32, finalize_direct_eoa, load_deposit, mint_of,
  or_reload, send_mint, set_deposit, set_mint_hash, set_minted, set_minting, settle, sign_and_audit,
  sign_by_mode, sign_by_status, sign_claimed, sign_direct_eoa, sign_if_minting, sign_loaded,
  sign_mint, sign_open,
}
use faircoin_bridge.Models.Deposit.{Deposit, DepositStatus}
use faircoin_bridge.Prelude.{
  List, Option, ap, arith, is_none, none, not_both, refl, some, some-injective, subst, sym, true, ℕ,
  ◌&&◌, ◌∙◌, ◌∷◌, ◌≡◌,
}
use faircoin_bridge.Prelude.Collection.{
  claim_by_id, find_by_id, find_by_id-update, find_by_id-update_self,
}
use faircoin_bridge.Store.{Config, Env, Mint, MintJob, MintMode, Receipt, Store, require_wallet}

-- The deposit is `x`, and nothing has been sent.
abbrev Holds : MintJob → Deposit → List Mint → Store → Type 0
Holds job x l s = (find_by_id job.deposit_id s.deposits ≡ some x) × (s.mints ≡ l)

-- The deposit is settled with the hash of the one mint that was sent.
abbrev pub IsMinted : MintJob → Deposit → List Mint → Store → Type 0
IsMinted job d before s =
    (h : ℕ) × (block : ℕ) × (find_by_id job.deposit_id s.deposits
      ≡ some (set_minted block (set_mint_hash h (set_minting d))))
    × (s.mints ≡ mint_of job ∷ before)

module _ (config : Config) (env : Env) (job : MintJob) (d : Deposit) (before : List Mint)
    (calm : (n : ℕ) → env.fate n ≡ Fate.fine) (mined : (n h : ℕ) → (env.receipt n h).success ≡ true)
    (mode : config.mint_auth_mode ≡ MintMode.direct_eoa) (key : config.has_bridge_key ≡ true)
    (txid : env.is_bytes32 job.fair_txid ≡ true) where
  set_deposit-Holds :
      (f : Deposit → Deposit) (x : Deposit) (l : List Mint) (s : Store)
      → Holds job x l s
      → Holds job (f x) l (set_deposit job.deposit_id f s)
  unfolding set_deposit
  set_deposit-Holds f x l s p = (find_by_id-update_self job.deposit_id f s.deposits p.0, p.1)

  settle-Returns :
      (h : ℕ) (r : Receipt)
      → r.success ≡ true
      → Returns
          (Holds job (set_mint_hash h (set_minting d)) (mint_of job ∷ before))
          (settle config env job.deposit_id r)
          (λ _. IsMinted job d before)
  unfolding settle
  settle-Returns h r ok =
      if-Ensures r.success
        (λ _. modify-Returns _ _ calm (λ s p.
          let q = set_deposit-Holds (set_minted r.block_number) _ _ s p in
          (h, r.block_number, q.0, q.1)))
        (λ f. absurd (not_both ok f))

  broadcast-Returns :
      Returns
        (Holds job (set_minting d) before)
        (broadcast_direct_eoa config env job)
        (λ _. Holds job (set_minting d) (mint_of job ∷ before))
  unfolding broadcast_direct_eoa require_wallet fair_txid_to_bytes32 send_mint
  broadcast-Returns =
      then-Ensures (Holds job (set_minting d) before)
        (if-Ensures config.has_bridge_key (λ _. skip-Ensures (λ s p. p))
          (λ f. absurd (not_both key f)))
        (then-Ensures (Holds job (set_minting d) before)
          (if-Ensures (env.is_bytes32 job.fair_txid) (λ _. skip-Ensures (λ s p. p))
            (λ f. absurd (not_both txid f)))
          (act-Returns _ _ calm (λ n s p. (p.0, ap (λ l. mint_of job ∷ l) p.1))))

  sign_direct_eoa-Returns :
      (o : Option ℕ)
      → o ≡ none
      → Returns
          (Holds job (set_minting d) before)
          (broadcast_or_reconcile config env job o)
          (λ _. IsMinted job d before)
  unfolding broadcast_or_reconcile finalize_direct_eoa
  sign_direct_eoa-Returns (some h) e = cc
  sign_direct_eoa-Returns none e = bind-Ensures _ broadcast-Returns λ h.
      then-Ensures (Holds job (set_mint_hash h (set_minting d)) (mint_of job ∷ before))
        (modify-Returns _ _ calm (λ s p. set_deposit-Holds (set_mint_hash h) _ _ s p))
        (then-Ensures (IsMinted job d before)
          (bind-Ensures
            (λ (r : Receipt) s.
              Holds job (set_mint_hash h (set_minting d)) (mint_of job ∷ before) s
              × (r.success ≡ true))
            (ask-Returns _ _ calm (λ n s p. (p, mined n h)))
            (λ r.
              known-Ensures (λ s p. p.1) (λ ok. pre-Ensures (λ s p. p.0) (settle-Returns h r ok))))
          (pure-Ensures h (λ s p. p)))

  module _ (unsent : d.base_mint_tx_hash ≡ none) (unproposed : d.safe_tx_hash ≡ none) where
    sign_by_mode-Returns :
        (m : MintMode)
        → m ≡ MintMode.direct_eoa
        → Returns
            (Holds job (set_minting d) before)
            (sign_by_mode config env m job (set_minting d))
            (λ _. IsMinted job d before)
    unfolding sign_by_mode sign_direct_eoa set_minting
    sign_by_mode-Returns MintMode.safe_proposal e = cc
    sign_by_mode-Returns MintMode.direct_eoa e = sign_direct_eoa-Returns _ unsent

    sign_if_minting-Returns :
        Returns
          (Holds job (set_minting d) before)
          (sign_if_minting config env (set_minting d).status job (set_minting d))
          (λ _. IsMinted job d before)
    unfolding sign_if_minting sign_and_audit set_minting
    sign_if_minting-Returns =
        bind-Ensures (λ _. IsMinted job d before)
          (unfold set_minting in sign_by_mode-Returns config.mint_auth_mode mode)
          (λ h. modify-Returns _ _ calm (λ s p. p))

    same :
        (x : Deposit)
        → x ≡ set_minting d
        → Returns
            (Holds job (set_minting d) before)
            (sign_if_minting config env x.status job x)
            (λ _. IsMinted job d before)
    same x e =
        subst
          (λ y.
            Returns (Holds job (set_minting d) before) (sign_if_minting config env y.status job y)
              (λ _. IsMinted job d before))
          (sym e) sign_if_minting-Returns

    sign_claimed-Returns :
        (found : Option Deposit)
        → Returns
            (λ s. Holds job (set_minting d) before s × (found ≡ some (set_minting d)))
            (sign_claimed config env job found)
            (λ _. IsMinted job d before)
    unfolding sign_claimed
    sign_claimed-Returns none = known-Ensures (λ s p. p.1) (λ e. cc)
    sign_claimed-Returns (some x) =
        known-Ensures (λ s p. p.1) (λ e. pre-Ensures (λ s p. p.0) (same x (some-injective _ _ e)))

    -- The claim of a deposit that is CONFIRMED or MINTING.
    claim-Holds :
        (s : Store)
        → claimable_status d.status ≡ true
        → Holds job d before s
        → Holds job (set_minting d) before (claim_effect job.deposit_id s).1
          × ((claim_effect job.deposit_id s).0 ≡ some (set_minting d))
    unfolding claim_effect claim_by_id claimable
    claim-Holds s st p =
        ground (arith, find_by_id-update job.deposit_id job.deposit_id set_minting s.deposits)

    claim_or_reload-Returns :
        claimable_status d.status ≡ true
        → Returns
            (Holds job d before)
            (claim_or_reload config env job.deposit_id d)
            (λ found s. Holds job (set_minting d) before s × (found ≡ some (set_minting d)))
    unfolding claim_or_reload claim_mint
    claim_or_reload-Returns st =
        if-Ensures (is_none d.base_mint_tx_hash && is_none d.safe_tx_hash)
          (λ _.
            bind-Ensures
              (λ found s. Holds job (set_minting d) before s × (found ≡ some (set_minting d)))
              (act-Returns _ _ calm (λ n s p. claim-Holds s st p)) kept)
          (λ f. absurd (ground arith))
      where
        kept :
            (found : Option Deposit)
            → Returns
                (λ s. Holds job (set_minting d) before s × (found ≡ some (set_minting d)))
                (or_reload config env job.deposit_id found)
                (λ again s. Holds job (set_minting d) before s × (again ≡ some (set_minting d)))
        kept none = known-Ensures (λ s p. p.1) (λ e. cc)
        kept (some x) = unfold or_reload in pure-Ensures _ (λ s p. p)

    sign_open-Returns :
        claimable_status d.status ≡ true
        → Returns (Holds job d before) (sign_open config env job d) (λ _. IsMinted job d before)
    unfolding sign_open
    sign_open-Returns st =
        bind-Ensures _ (claim_or_reload-Returns st) (λ found. sign_claimed-Returns found)

    sign_by_status-Returns :
        (st : DepositStatus)
        → d.status ≡ st
        → claimable_status st ≡ true
        → Returns
            (Holds job d before)
            (sign_by_status config env st job d)
            (λ _. IsMinted job d before)
    unfolding sign_by_status claimable_status
    sign_by_status-Returns DepositStatus.minted e c = cc
    sign_by_status-Returns DepositStatus.failed e c = cc
    sign_by_status-Returns _ e c = sign_open-Returns (ap claimable_status e ∙ c)

    sign_mint-Returns :
        claimable_status d.status ≡ true
        → Returns (Holds job d before) (sign_mint config env job) (λ _. IsMinted job d before)
    unfolding sign_mint load_deposit sign_loaded
    sign_mint-Returns st =
        bind-Ensures (λ found s. Holds job d before s × (found ≡ some d))
          (query-Returns _ _ calm (λ s p. (p, p.0))) found_it
      where
        found_it :
            (found : Option Deposit)
            → Returns
                (λ s. Holds job d before s × (found ≡ some d))
                (sign_loaded config env job found)
                (λ _. IsMinted job d before)
        found_it none = known-Ensures (λ s p. p.1) (λ e. cc)
        found_it (some x) =
            known-Ensures (λ s p. p.1)
              (λ e.
                pre-Ensures (λ s p. p.0)
                  (subst
                    (λ y.
                      Returns (Holds job d before) (sign_by_status config env y.status job y)
                        (λ _. IsMinted job d before))
                    (sym (some-injective _ _ e)) (sign_by_status-Returns d.status refl st)))

    -- A mint job in direct mode for a deposit that is CONFIRMED or MINTING with no hash on file: where
    -- no call fails, the key is configured, the txid has 32 bytes and the transaction succeeds, the
    -- signer returns, has sent exactly this job's mint, and the deposit is MINTED with a hash and a
    -- block number on file and its other fields unchanged.
    pub sign_mint_mints :
        claimable_status d.status ≡ true
        → (w : World Store) → find_by_id job.deposit_id w.store.deposits ≡ some d
        → w.store.mints ≡ before
        → ((sign_mint config env job w).0 ≡ done tt)
          × IsMinted job d before (sign_mint config env job w).1.store
    sign_mint_mints st w found same =
        let (_, returned, settled) =
          Returns-done (λ _. IsMinted job d before) (sign_mint-Returns st) w (found, same) in
        (returned, settled)
