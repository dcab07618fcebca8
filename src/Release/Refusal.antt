-- ===== src/Release/Refusal.antt =====
-- A release job whose destination is not a FairCoin address.
use faircoin_bridge.Effects.{Fate, Outcome, World, died, done, threw}
use faircoin_bridge.Effects.Hoare.{
  Ensures, Post, bind-Ensures, if-Ensures, known-Ensures, pre-Ensures, skip-Ensures, throw-Ensures,
  weaken-Ensures,
}
use faircoin_bridge.Effects.Keeps.{then-Ensures}
use faircoin_bridge.Effects.Returns.{Returns, ask-Returns, modify-Returns, query-Returns}
use faircoin_bridge.Models.Withdrawal.{Withdrawal, WithdrawalStatus}
use faircoin_bridge.Prelude.{
  Bool, List, Option, arith, false, is_none, none, not_both, some, some-injective, subst, sym, true,
  ℕ, ◌≡◌, ◌≢◌,
}
use faircoin_bridge.Prelude.Collection.{find_by_id, find_by_id-update_self}
use faircoin_bridge.Release.{
  load_withdrawal, refuse_address, releasable_status, release_by_status, release_loaded,
  release_open, require_node_wallet, set_failed, set_withdrawal, sign_release, validate_destination,
}
use faircoin_bridge.Store.{Action, Config, Env, HotWalletMode, ReleaseJob, Send, Store}

-- The withdrawal is FAILED, and no payment has been asked for.
abbrev pub IsRefused : ReleaseJob → Withdrawal → List Send → Store → Type 0
IsRefused job d before s =
    (find_by_id job.withdrawal_id s.withdrawals ≡ some (set_failed d)) × (s.sends ≡ before)

module _ (config : Config) (env : Env) (job : ReleaseJob) (d : Withdrawal) (before : List Send)
    (calm : (n : ℕ) → env.fate n ≡ Fate.fine)
    (invalid : (n : ℕ) → env.is_valid_address n job.destination_fair_address ≡ false)
    (mode : config.fair_hot_wallet_mode ≡ HotWalletMode.node_wallet)
    (unsent : d.fair_txid ≡ none) where
  abbrev pub Holds : Store → Type 0
  Holds s = (find_by_id job.withdrawal_id s.withdrawals ≡ some d) × (s.sends ≡ before)

  abbrev Refuses : {A : Type 0} → Action A → Type 0
  Refuses m = Ensures Holds m (λ _ _. ⊥) (IsRefused job d before)

  -- No call fails on the way.
  calmly :
      {A : Type 0} {m : Action A} {Q : A → Store → Type 0}
      → Returns Holds m Q
      → Ensures Holds m Q (IsRefused job d before)
  calmly h = weaken-Ensures (λ s p. p) (λ _ s p. p) (λ s p. absurd p) h

  refuse_address-Refuses : Refuses (refuse_address config env job)
  unfolding refuse_address set_withdrawal
  refuse_address-Refuses =
      then-Ensures (IsRefused job d before)
        (calmly (
          modify-Returns _ _ calm
            (λ s p. (find_by_id-update_self job.withdrawal_id set_failed s.withdrawals p.0, p.1))))
        (throw-Ensures _ (λ s p. p))

  validate_destination-Refuses : Refuses (validate_destination config env job d)
  unfolding validate_destination
  validate_destination-Refuses =
      if-Ensures (is_none d.fair_txid)
        (λ _.
          bind-Ensures (λ (b : Bool) s. Holds s × (b ≡ false))
            (calmly (ask-Returns _ _ calm (λ n s p. (p, invalid n))))
            (λ b.
              known-Ensures (λ s p. p.1)
                (λ e.
                  if-Ensures b (λ t. absurd (not_both t e))
                    (λ _. pre-Ensures (λ s p. p.0) refuse_address-Refuses))))
        (λ f. absurd (ground arith))

  require_node_wallet-Holds :
      (m : HotWalletMode)
      → m ≡ HotWalletMode.node_wallet
      → Ensures Holds (require_node_wallet config env m) (λ _. Holds) (IsRefused job d before)
  unfolding require_node_wallet
  require_node_wallet-Holds HotWalletMode.node_wallet e = skip-Ensures (λ s p. p)
  require_node_wallet-Holds HotWalletMode.local_hd e = cc

  release_by_status-Refuses :
      (st : WithdrawalStatus)
      → releasable_status st ≡ true
      → Refuses (release_by_status config env st job d)
  unfolding release_by_status releasable_status release_open
  release_by_status-Refuses WithdrawalStatus.final c = cc
  release_by_status-Refuses WithdrawalStatus.broadcast c = cc
  release_by_status-Refuses WithdrawalStatus.failed c = cc
  release_by_status-Refuses _ c =
      then-Ensures Holds (require_node_wallet-Holds config.fair_hot_wallet_mode mode) (
        then-Ensures (λ _. ⊥) validate_destination-Refuses
          (known-Ensures (λ s p. p) (λ x. absurd x)))

  sign_release-Refuses : releasable_status d.status ≡ true → Refuses (sign_release config env job)
  unfolding sign_release load_withdrawal release_loaded
  sign_release-Refuses st =
      bind-Ensures (λ found s. Holds s × (found ≡ some d))
        (calmly (query-Returns _ _ calm (λ s p. (p, p.0)))) found_it
    where
      found_it :
          (found : Option Withdrawal)
          → Ensures
              (λ s. Holds s × (found ≡ some d))
              (release_loaded config env job found)
              (λ _ _. ⊥)
              (IsRefused job d before)
      found_it none = known-Ensures (λ s p. p.1) (λ e. cc)
      found_it (some x) =
          known-Ensures (λ s p. p.1)
            (λ e.
              pre-Ensures (λ s p. p.0)
                (subst (λ y. Refuses (release_by_status config env y.status job y))
                  (sym (some-injective _ _ e)) (release_by_status-Refuses d.status st)))

  -- A release job with the node's wallet for a withdrawal that is CONFIRMED or SIGNING with no txid
  -- on file: where no call fails and the destination is not a FairCoin address, the signer does
  -- not return, has asked for no payment, and the withdrawal is FAILED, its other fields unchanged.
  pub sign_release_refuses :
      releasable_status d.status ≡ true
      → (w : World Store) → Holds w.store
      → ((sign_release config env job w).0 ≢ done tt)
        × IsRefused job d before (sign_release config env job w).1.store
  sign_release_refuses st w p =
      go (sign_release config env job w) ((sign_release-Refuses st).runs w p)
    where
      go :
          (r : Outcome (Unit {0}) × World Store)
          → Post (λ _ _. ⊥) (IsRefused job d before) r
          → (r.0 ≢ done tt) × IsRefused job d before r.1.store
      go (done a, w') x = absurd x
      go (threw e, w') x = ((λ q. cc), x)
      go (died, w') x = ((λ q. cc), x)
