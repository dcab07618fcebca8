-- ===== src/Release/Attempts.antt =====
-- Retries of one release job.
use faircoin_bridge.Effects.{Error, World, modify}
use faircoin_bridge.Effects.Hoare.{
  Ensures, act-Ensures, bind-Ensures, pre-Ensures, run-Ensures, weaken-Ensures,
}
use faircoin_bridge.Effects.Keeps.{
  Keeps, act-Keeps, ask-Keeps, bind-Keeps, catch-Keeps, if-Keeps, modify-Keeps, pure-Keeps,
  query-Keeps, skip-Keeps, then-Ensures, then-Keeps, throw-Keeps,
}
use faircoin_bridge.Effects.Retries.{attempts, attempts-sent, attempts-total, total, unrecorded}
use faircoin_bridge.Models.Withdrawal.{Withdrawal, WithdrawalStatus}
use faircoin_bridge.Prelude.{
  Bool, List, Option, ap, false, inl, inr, length, none, refl, some, true, ℕ, ◌*◌, ◌+◌, ◌<◌, ◌∷◌,
  ◌≡◌, ◌≤◌, ◌⊎◌,
}
use faircoin_bridge.Release.{
  claim_or_reload, claim_release, claim_release_effect, fair_tx_exists, get_raw_transaction,
  link_release_to_buy_order, load_withdrawal, not_found, or_reload, reconcile_release,
  refuse_address, release_by_status, release_claimed, release_if_signing, release_loaded,
  release_on_file, release_open, require_node_wallet, run, sats_to_fair, send_to_address,
  set_withdrawal, sign_and_link, sign_node_wallet, sign_node_wallet_by, sign_release,
  validate_destination,
}
use faircoin_bridge.Release.Recorded.{sign_release_once_recorded}
use faircoin_bridge.Release.Rounding.{exact_below, nearest_sats, nearest_sats-sats_to_fair}
use faircoin_bridge.Store.{
  Action, Alert, Config, Env, HotWalletMode, ReleaseJob, Send, Store, alert,
}

-- What the job is to pay.
abbrev pub payment_of : ReleaseJob → Send
payment_of job = record {
  address = job.destination_fair_address;
  amount = sats_to_fair job.amount_sats;
}

-- The sats of these payments.
abbrev pub paid_sats : List Send → ℕ
paid_sats l = total (λ x. x.amount.sats) l

module _ (config : Config) (env : Env) (J : List Send → Type 0) where
  set_withdrawal-sends :
      (id : ℕ) (f : Withdrawal → Withdrawal)
      → Keeps (λ s. J s.sends) (modify env.fate (set_withdrawal id f))
  unfolding set_withdrawal
  set_withdrawal-sends id f = modify-Keeps _ _ (λ s p. p)

  alert-sends : (a : Alert) → Keeps (λ s. J s.sends) (alert env a)
  unfolding alert
  alert-sends a = modify-Keeps _ _ (λ s p. p)

  claim_or_reload-sends :
      (id : ℕ) (d : Withdrawal) → Keeps (λ s. J s.sends) (claim_or_reload config env id d)
  unfolding claim_or_reload claim_release claim_release_effect
  claim_or_reload-sends id d =
      if-Keeps _ (bind-Keeps (act-Keeps _ _ (λ n s p. p)) reload) (pure-Keeps _)
    where
      reload : (found : Option Withdrawal) → Keeps (λ s. J s.sends) (or_reload config env id found)
      reload none = unfold or_reload load_withdrawal in query-Keeps _ _
      reload (some d') = unfold or_reload in pure-Keeps _

  require_node_wallet-sends :
      (m : HotWalletMode) → Keeps (λ s. J s.sends) (require_node_wallet config env m)
  unfolding require_node_wallet
  require_node_wallet-sends HotWalletMode.node_wallet = skip-Keeps
  require_node_wallet-sends HotWalletMode.local_hd = throw-Keeps _

  validate_destination-sends :
      (job : ReleaseJob) (d : Withdrawal)
      → Keeps (λ s. J s.sends) (validate_destination config env job d)
  unfolding validate_destination refuse_address
  validate_destination-sends job d =
      if-Keeps _
        (bind-Keeps (ask-Keeps _ _) (λ valid.
          if-Keeps valid skip-Keeps (then-Keeps (set_withdrawal-sends _ _) (throw-Keeps _))))
        skip-Keeps

  fair_tx_exists-sends : (t : ℕ) → Keeps (λ s. J s.sends) (fair_tx_exists config env t)
  unfolding fair_tx_exists get_raw_transaction not_found
  fair_tx_exists-sends t =
      catch-Keeps
        (then-Keeps
          (bind-Keeps (ask-Keeps _ _) (λ known. if-Keeps known skip-Keeps (throw-Keeps _)))
          (pure-Keeps _))
        handled
    where
      handled : (e : Error) → Keeps (λ s. J s.sends) (not_found config env e)
      handled Error.no_such_tx = pure-Keeps _
      handled _ = throw-Keeps _

  reconcile_release-sends :
      (id t : ℕ) (known : Bool) → Keeps (λ s. J s.sends) (reconcile_release config env id t known)
  unfolding reconcile_release set_withdrawal
  reconcile_release-sends id t true = then-Keeps (act-Keeps _ _ (λ n s p. p)) (pure-Keeps _)
  reconcile_release-sends id t false = then-Keeps (alert-sends _) (throw-Keeps _)

module _ (config : Config) (env : Env) (job : ReleaseJob) (before : List Send) where
  -- At most this job's payment has been asked for.
  abbrev AtMostOne : List Send → Type 0
  AtMostOne l = (l ≡ before) ⊎ (l ≡ payment_of job ∷ before)

  abbrev Sent : Store → Type 0
  Sent s = AtMostOne s.sends

  abbrev Unsent : Store → Type 0
  Unsent s = s.sends ≡ before

  abbrev SendsOnce : {A : Type 0} → Action A → Type 0
  SendsOnce m = Ensures Unsent m (λ _. Sent) Sent

  -- What sends nothing may come first.
  quietly : {A : Type 0} {m : Action A} → Keeps Unsent m → Ensures Unsent m (λ _. Unsent) Sent
  quietly k = weaken-Ensures (λ s p. p) (λ _ s p. p) (λ s p. inl p) k

  -- Nothing after it sends another.
  rest : {A : Type 0} {m : Action A} → Keeps Sent m → SendsOnce m
  rest k = pre-Ensures (λ s p. inl p) k

  send_to_address-Sent :
      SendsOnce
        (send_to_address config env job.destination_fair_address (sats_to_fair job.amount_sats))
  unfolding send_to_address
  send_to_address-Sent =
      act-Ensures _ _ (λ n s p.
        (inr (ap (λ l. payment_of job ∷ l) p), inl p, inr (ap (λ l. payment_of job ∷ l) p)))

  sign_node_wallet_by-Sent : (o : Option ℕ) → SendsOnce (sign_node_wallet_by config env job o)
  unfolding sign_node_wallet_by set_withdrawal
  sign_node_wallet_by-Sent (some t) = rest (
      bind-Keeps (fair_tx_exists-sends config env AtMostOne t)
        (λ known. reconcile_release-sends config env AtMostOne _ t known))
  sign_node_wallet_by-Sent none =
      bind-Ensures (λ _. Sent) send_to_address-Sent
        λ t.
          then-Keeps (act-Keeps _ _ (λ n s p. p))
            (then-Keeps (modify-Keeps _ _ (λ s p. p)) (pure-Keeps _))

  sign_and_link-Sent : (d : Withdrawal) → SendsOnce (sign_and_link config env job d)
  unfolding sign_and_link sign_node_wallet link_release_to_buy_order
  sign_and_link-Sent d =
      bind-Ensures (λ _. Sent) (sign_node_wallet_by-Sent d.fair_txid)
        λ t.
          then-Keeps (modify-Keeps _ _ (λ s p. p))
            (catch-Keeps (modify-Keeps _ _ (λ s p. p)) (λ _. skip-Keeps))

  release_if_signing-Sent :
      (st : WithdrawalStatus) (d : Withdrawal) → SendsOnce (release_if_signing config env st job d)
  unfolding release_if_signing
  release_if_signing-Sent WithdrawalStatus.signing d = sign_and_link-Sent d
  release_if_signing-Sent _ d = rest skip-Keeps

  release_claimed-Sent :
      (found : Option Withdrawal) → SendsOnce (release_claimed config env job found)
  unfolding release_claimed
  release_claimed-Sent none = rest skip-Keeps
  release_claimed-Sent (some d) = release_if_signing-Sent d.status d

  release_by_status-Sent :
      (st : WithdrawalStatus) (d : Withdrawal) → SendsOnce (release_by_status config env st job d)
  unfolding release_by_status release_open
  release_by_status-Sent WithdrawalStatus.final d = rest skip-Keeps
  release_by_status-Sent WithdrawalStatus.broadcast d = rest skip-Keeps
  release_by_status-Sent WithdrawalStatus.failed d = rest (throw-Keeps _)
  release_by_status-Sent _ d =
      then-Ensures Unsent
        (quietly
          (require_node_wallet-sends config env (λ l. l ≡ before) config.fair_hot_wallet_mode))
        (then-Ensures Unsent
          (quietly (validate_destination-sends config env (λ l. l ≡ before) job d))
          (bind-Ensures (λ _. Unsent)
            (quietly (claim_or_reload-sends config env (λ l. l ≡ before) _ d))
            (λ found. release_claimed-Sent found)))

  release_loaded-Sent :
      (found : Option Withdrawal) → SendsOnce (release_loaded config env job found)
  unfolding release_loaded
  release_loaded-Sent none = rest skip-Keeps
  release_loaded-Sent (some d) = release_by_status-Sent d.status d

  sign_release-Sent : SendsOnce (sign_release config env job)
  unfolding sign_release load_withdrawal
  sign_release-Sent =
      bind-Ensures (λ _. Unsent) (quietly (query-Keeps _ _)) (λ found. release_loaded-Sent found)

module _ (config : Config) (env : Env) (job : ReleaseJob) where
  run_once :
      (w : World Store)
      → ((run config env job w).store.sends ≡ w.store.sends)
        ⊎ ((run config env job w).store.sends ≡ payment_of job ∷ w.store.sends)
  unfolding run
  run_once w = run-Ensures (sign_release-Sent config env job w.store.sends) w refl

  run-kept :
      (w : World Store) (h : ℕ)
      → release_on_file job w.store ≡ some h
      → (release_on_file job (run config env job w).store ≡ some h)
        × ((run config env job w).store.sends ≡ w.store.sends)
  unfolding run release_on_file
  run-kept w h p =
      let kept =
        sign_release_once_recorded config env job h w.store.sends w
          (record { recorded = p; unsent = refl }) in
      (kept.recorded, kept.unsent)

  -- However often a release job runs, and however each run ends, it asks faircoind for at most one
  -- payment, and for at most one more for each run that asked for one and left no txid on file.
  pub attempts-sends :
      (n : ℕ) (w : World Store)
      → length (attempts (run config env job) n w).store.sends
        ≤ length w.store.sends
          + 1
          + unrecorded (run config env job) (λ s. s.sends) (release_on_file job) n w
  attempts-sends n w =
      attempts-sent _ _ _
        (λ w. elim (run_once w) [ inl e ↦ inl e | inr e ↦ inr (payment_of job, e) ]) run-kept n w

  pub attempts-paid :
      (n : ℕ) (w : World Store)
      → paid_sats (attempts (run config env job) n w).store.sends
        ≤ paid_sats w.store.sends
          + (1 + unrecorded (run config env job) (λ s. s.sends) (release_on_file job) n w)
            * job.amount_sats
  unfolding sats_to_fair
  attempts-paid n w =
      attempts-total (run config env job) (λ s. s.sends) (release_on_file job) (λ x. x.amount.sats)
        (payment_of job) run_once run-kept n w

  -- A run of the release signer, however it ends, for less than 33,554,432 FAIR: it has asked for
  -- nothing, or for one payment, to the job's address, of a double whose nearest sats are the job's.
  pub sign_release_pays_job :
      job.amount_sats < exact_below
      → (w : World Store)
      → ((sign_release config env job w).1.store.sends ≡ w.store.sends)
        ⊎ ((x : Send) × ((sign_release config env job w).1.store.sends ≡ x ∷ w.store.sends)
            × (x.address ≡ job.destination_fair_address)
            × (nearest_sats x.amount.double ≡ job.amount_sats))
  sign_release_pays_job few w =
      elim (run-Ensures (sign_release-Sent config env job w.store.sends) w refl) [
        | inl e ↦ inl e
        | inr e ↦ inr (payment_of job, e, refl, nearest_sats-sats_to_fair job.amount_sats few)
      ]
