-- ===== src/Release/Payment.antt =====
-- A release job where no call fails.
use faircoin_bridge.Effects.{Fate, World, done}
use faircoin_bridge.Effects.Hoare.{
  bind-Ensures, catch-Ensures, if-Ensures, known-Ensures, pre-Ensures, pure-Ensures, skip-Ensures,
}
use faircoin_bridge.Effects.Keeps.{then-Ensures}
use faircoin_bridge.Effects.Returns.{
  Returns, Returns-done, act-Returns, ask-Returns, modify-Returns, query-Returns,
}
use faircoin_bridge.Models.Withdrawal.{Withdrawal, WithdrawalStatus}
use faircoin_bridge.Prelude.{
  Bool, List, Option, ap, arith, is_none, none, not_both, refl, some, some-injective, subst, sym,
  true, ℕ, ◌<◌, ◌∙◌, ◌∷◌, ◌≡◌,
}
use faircoin_bridge.Prelude.Collection.{
  claim_by_id, find_by_id, find_by_id-update, find_by_id-update_self,
}
use faircoin_bridge.Release.{
  claim_or_reload, claim_release, claim_release_effect, link_release_to_buy_order, load_withdrawal,
  or_reload, releasable, releasable_status, release_by_status, release_claimed, release_if_signing,
  release_loaded, release_open, require_node_wallet, sats_to_fair, send_to_address, set_broadcast,
  set_signing, set_txid, set_withdrawal, sign_and_link, sign_node_wallet, sign_node_wallet_by,
  sign_release, validate_destination,
}
use faircoin_bridge.Release.Attempts.{payment_of}
use faircoin_bridge.Release.Rounding.{exact_below, nearest_sats, nearest_sats-sats_to_fair}
use faircoin_bridge.Store.{Config, Env, HotWalletMode, ReleaseJob, Send, Store}

-- The withdrawal is `x`, and these payments have been asked for.
abbrev Holds : ReleaseJob → Withdrawal → List Send → Store → Type 0
Holds job x l s = (find_by_id job.withdrawal_id s.withdrawals ≡ some x) × (s.sends ≡ l)

-- The withdrawal is BROADCAST with the txid of the one payment that was asked for, of the double
-- that is made of the job's sats.
abbrev pub IsPaid : ReleaseJob → Withdrawal → List Send → Store → Type 0
IsPaid job d before s =
    (txid : ℕ) × (at : ℕ) × (find_by_id job.withdrawal_id s.withdrawals
      ≡ some (set_broadcast (set_txid txid at (set_signing d))))
    × (s.sends ≡ payment_of job ∷ before)

-- The nearest sats of what is asked for are the job's.
abbrev pub IsNear : ReleaseJob → Type 0
IsNear job = nearest_sats (payment_of job).amount.double ≡ job.amount_sats

module _ (config : Config) (env : Env) (job : ReleaseJob) (d : Withdrawal) (before : List Send)
    (calm : (n : ℕ) → env.fate n ≡ Fate.fine)
    (valid : (n : ℕ) → env.is_valid_address n job.destination_fair_address ≡ true)
    (mode : config.fair_hot_wallet_mode ≡ HotWalletMode.node_wallet) where
  set_withdrawal-Holds :
      (f : Withdrawal → Withdrawal) (x : Withdrawal) (l : List Send) (s : Store)
      → Holds job x l s
      → Holds job (f x) l (set_withdrawal job.withdrawal_id f s)
  unfolding set_withdrawal
  set_withdrawal-Holds f x l s p =
      (find_by_id-update_self job.withdrawal_id f s.withdrawals p.0, p.1)

  send_to_address-Returns :
      (x : Withdrawal)
      → Returns
          (Holds job x before)
          (send_to_address config env job.destination_fair_address (sats_to_fair job.amount_sats))
          (λ _. Holds job x (payment_of job ∷ before))
  unfolding send_to_address
  send_to_address-Returns x =
      act-Returns _ _ calm (λ n s p. (p.0, ap (λ l. payment_of job ∷ l) p.1))

  sign_node_wallet_by-Returns :
      (o : Option ℕ)
      → o ≡ none
      → Returns
          (Holds job (set_signing d) before)
          (sign_node_wallet_by config env job o)
          (λ _. IsPaid job d before)
  unfolding sign_node_wallet_by
  sign_node_wallet_by-Returns (some t) e = cc
  sign_node_wallet_by-Returns none e = bind-Ensures _ (send_to_address-Returns (set_signing d)) λ t.
      then-Ensures
        (λ s. (at : ℕ) × Holds job (set_txid t at (set_signing d)) (payment_of job ∷ before) s)
        (act-Returns _ _ calm
          (λ n s p. (env.now n, set_withdrawal-Holds (set_txid t (env.now n)) _ _ s p)))
        (then-Ensures (IsPaid job d before)
          (modify-Returns _ _ calm
            (λ s p. let q = set_withdrawal-Holds set_broadcast _ _ s p.1 in (t, p.0, q.0, q.1)))
          (pure-Ensures t (λ s p. p)))

  require_node_wallet-Returns :
      (m : HotWalletMode)
      → m ≡ HotWalletMode.node_wallet
      → Returns (Holds job d before) (require_node_wallet config env m) (λ _. Holds job d before)
  unfolding require_node_wallet
  require_node_wallet-Returns HotWalletMode.node_wallet e = skip-Ensures (λ s p. p)
  require_node_wallet-Returns HotWalletMode.local_hd e = cc

  validate_destination-Returns :
      Returns (Holds job d before) (validate_destination config env job d) (λ _. Holds job d before)
  unfolding validate_destination
  validate_destination-Returns =
      if-Ensures (is_none d.fair_txid)
        (λ _.
          bind-Ensures (λ (b : Bool) s. Holds job d before s × (b ≡ true))
            (ask-Returns _ _ calm (λ n s p. (p, valid n)))
            (λ b.
              known-Ensures (λ s p. p.1)
                (λ e. if-Ensures b (λ _. skip-Ensures (λ s p. p.0)) (λ f. absurd (not_both e f)))))
        (λ _. skip-Ensures (λ s p. p))

  module _ (unsent : d.fair_txid ≡ none) where
    sign_and_link-Returns :
        Returns
          (Holds job (set_signing d) before)
          (sign_and_link config env job (set_signing d))
          (λ _. IsPaid job d before)
    unfolding sign_and_link sign_node_wallet link_release_to_buy_order set_signing
    sign_and_link-Returns =
        bind-Ensures (λ _. IsPaid job d before)
          (unfold set_signing in sign_node_wallet_by-Returns _ unsent)
          (λ t. then-Ensures (IsPaid job d before) (modify-Returns _ _ calm (λ s p. p)) (
            catch-Ensures (modify-Returns _ _ calm (λ s p. p))
              (λ e. pre-Ensures (λ s p. absurd p) (skip-Ensures (λ s p. p)))))

    signing :
        (x : Withdrawal)
        → x ≡ set_signing d
        → Returns
            (Holds job (set_signing d) before)
            (release_if_signing config env x.status job x)
            (λ _. IsPaid job d before)
    signing x e =
        subst
          (λ y.
            Returns (Holds job (set_signing d) before)
              (release_if_signing config env y.status job y) (λ _. IsPaid job d before))
          (sym e) (unfold release_if_signing set_signing in sign_and_link-Returns)

    release_claimed-Returns :
        (found : Option Withdrawal)
        → Returns
            (λ s. Holds job (set_signing d) before s × (found ≡ some (set_signing d)))
            (release_claimed config env job found)
            (λ _. IsPaid job d before)
    unfolding release_claimed
    release_claimed-Returns none = known-Ensures (λ s p. p.1) (λ e. cc)
    release_claimed-Returns (some x) =
        known-Ensures (λ s p. p.1)
          (λ e. pre-Ensures (λ s p. p.0) (signing x (some-injective _ _ e)))

    -- The claim of a withdrawal that is CONFIRMED or SIGNING.
    claim-Holds :
        (s : Store)
        → releasable_status d.status ≡ true
        → Holds job d before s
        → Holds job (set_signing d) before (claim_release_effect job.withdrawal_id s).1
          × ((claim_release_effect job.withdrawal_id s).0 ≡ some (set_signing d))
    unfolding claim_release_effect claim_by_id releasable
    claim-Holds s st p =
        ground
          (arith, find_by_id-update job.withdrawal_id job.withdrawal_id set_signing s.withdrawals)

    claim_or_reload-Returns :
        releasable_status d.status ≡ true
        → Returns
            (Holds job d before)
            (claim_or_reload config env job.withdrawal_id d)
            (λ found s. Holds job (set_signing d) before s × (found ≡ some (set_signing d)))
    unfolding claim_or_reload claim_release
    claim_or_reload-Returns st =
        if-Ensures (is_none d.fair_txid)
          (λ _.
            bind-Ensures
              (λ found s. Holds job (set_signing d) before s × (found ≡ some (set_signing d)))
              (act-Returns _ _ calm (λ n s p. claim-Holds s st p)) kept)
          (λ f. absurd (ground arith))
      where
        kept :
            (found : Option Withdrawal)
            → Returns
                (λ s. Holds job (set_signing d) before s × (found ≡ some (set_signing d)))
                (or_reload config env job.withdrawal_id found)
                (λ again s. Holds job (set_signing d) before s × (again ≡ some (set_signing d)))
        kept none = known-Ensures (λ s p. p.1) (λ e. cc)
        kept (some x) = unfold or_reload in pure-Ensures _ (λ s p. p)

    release_open-Returns :
        releasable_status d.status ≡ true
        → Returns (Holds job d before) (release_open config env job d) (λ _. IsPaid job d before)
    unfolding release_open
    release_open-Returns st =
        then-Ensures (Holds job d before) (require_node_wallet-Returns _ mode) (
          then-Ensures (Holds job d before) validate_destination-Returns
            (bind-Ensures _ (claim_or_reload-Returns st) (λ found. release_claimed-Returns found)))

    release_by_status-Returns :
        (st : WithdrawalStatus)
        → d.status ≡ st
        → releasable_status st ≡ true
        → Returns
            (Holds job d before)
            (release_by_status config env st job d)
            (λ _. IsPaid job d before)
    unfolding release_by_status releasable_status
    release_by_status-Returns WithdrawalStatus.final e c = cc
    release_by_status-Returns WithdrawalStatus.broadcast e c = cc
    release_by_status-Returns WithdrawalStatus.failed e c = cc
    release_by_status-Returns _ e c = release_open-Returns (ap releasable_status e ∙ c)

    sign_release-Returns :
        releasable_status d.status ≡ true
        → Returns (Holds job d before) (sign_release config env job) (λ _. IsPaid job d before)
    unfolding sign_release load_withdrawal release_loaded
    sign_release-Returns st =
        bind-Ensures (λ found s. Holds job d before s × (found ≡ some d))
          (query-Returns _ _ calm (λ s p. (p, p.0))) found_it
      where
        found_it :
            (found : Option Withdrawal)
            → Returns
                (λ s. Holds job d before s × (found ≡ some d))
                (release_loaded config env job found)
                (λ _. IsPaid job d before)
        found_it none = known-Ensures (λ s p. p.1) (λ e. cc)
        found_it (some x) =
            known-Ensures (λ s p. p.1)
              (λ e.
                pre-Ensures (λ s p. p.0)
                  (subst
                    (λ y.
                      Returns (Holds job d before) (release_by_status config env y.status job y)
                        (λ _. IsPaid job d before))
                    (sym (some-injective _ _ e)) (release_by_status-Returns d.status refl st)))

    -- A release job of less than 33,554,432 FAIR, with the node's wallet, for a withdrawal that is
    -- CONFIRMED or SIGNING with no txid on file: where no call fails and the destination is a
    -- FairCoin address, the signer returns, has asked faircoind for one payment, to the job's
    -- address, of the double that is made of the job's sats, whose nearest sats they are, and the
    -- withdrawal is BROADCAST with the payment's txid and time on file and its other fields
    -- unchanged.
    pub sign_release_pays :
        releasable_status d.status ≡ true
        → job.amount_sats < exact_below
        → (w : World Store) → find_by_id job.withdrawal_id w.store.withdrawals ≡ some d
        → w.store.sends ≡ before
        → ((sign_release config env job w).0 ≡ done tt)
          × IsPaid job d before (sign_release config env job w).1.store
          × IsNear job
    sign_release_pays st few w found same =
        let (_, returned, paid) =
          Returns-done (λ _. IsPaid job d before) (sign_release-Returns st) w (found, same) in
        (returned, paid, nearest_sats-sats_to_fair job.amount_sats few)
