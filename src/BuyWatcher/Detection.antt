-- ===== src/BuyWatcher/Detection.antt =====
-- Which orders the buy watcher hands on (services/bridge/src/workers/buy-watcher.ts).
use faircoin_bridge.BuyWatcher.{
  add_buy_job, balance_or_none, claim_detected, detect_at, detect_order, detect_paid, enqueue,
}
use faircoin_bridge.Effects.{World, ask}
use faircoin_bridge.Effects.Hoare.{
  Ensures, act-Ensures, bind-Ensures, catch-Ensures, if-Ensures, known-Ensures, modify-Ensures,
  pure-Ensures, run-Ensures, skip-Ensures, weaken-Ensures,
}
use faircoin_bridge.Models.BuyOrder.{BuyOrder}
use faircoin_bridge.Prelude.{
  List, Option, ap, arith, inl, inr, ltb, none, refl, some, some-injective, sym, ℕ, ◌∙◌, ◌∷◌, ◌≡◌,
  ◌≤◌, ◌⊎◌,
}
use faircoin_bridge.Store.{Config, Env, Store}

module _ (config : Config) (env : Env) (id : ℕ) (o : BuyOrder) (before : List ℕ) where
  -- No job, or this order's, has been added, and then its payment address held its price.
  abbrev pub Queued : Store → Type 0
  Queued s =
      (s.buy_jobs ≡ before)
      ⊎ ((n address : ℕ) × (o.payment_address ≡ some address)
          × (o.payment_amount ≤ env.usdc_balance_of n address)
          × (s.buy_jobs ≡ id ∷ before))

  abbrev Unqueued : Store → Type 0
  Unqueued s = s.buy_jobs ≡ before

  enqueue-Queued :
      (n address : ℕ) (found : Option BuyOrder)
      → o.payment_address ≡ some address
      → o.payment_amount ≤ env.usdc_balance_of n address
      → Ensures Unqueued (enqueue config env id found) (λ _. Queued) Queued
  unfolding enqueue add_buy_job
  enqueue-Queued n address none a paid = skip-Ensures (λ s p. inl p)
  enqueue-Queued n address (some _) a paid = modify-Ensures _ _ (λ s p. (
    inr (n, address, a, paid, ap (λ l. id ∷ l) p),
    inl p,
    inr (n, address, a, paid, ap (λ l. id ∷ l) p),
  ))

  -- What was read is a balance of that address.
  abbrev IsBalance : ℕ → Option ℕ → Type 0
  IsBalance address b = (x : ℕ) → b ≡ some x → (n : ℕ) × (x ≡ env.usdc_balance_of n address)

  balance_or_none-IsBalance :
      (address : ℕ)
      → Ensures Unqueued
          (balance_or_none config env address)
          (λ b s. Unqueued s × IsBalance address b)
          Unqueued
  unfolding balance_or_none ask
  balance_or_none-IsBalance address =
      catch-Ensures
        (bind-Ensures (λ x s. Unqueued s × ((n : ℕ) × (x ≡ env.usdc_balance_of n address)))
          (act-Ensures _ _ (λ n s p. ((p, (n, refl)), p, p)))
          (λ x. pure-Ensures _ (λ s p. (p.0, λ y e. (p.1.0, sym (some-injective _ _ e) ∙ p.1.1)))))
        (λ _. pure-Ensures _ (λ s p. (p, λ y e. absurd (cc))))

  detect_paid-Queued :
      (address : ℕ) (b : Option ℕ)
      → o.payment_address ≡ some address
      → Ensures
          (λ s. Unqueued s × IsBalance address b)
          (detect_paid config env id o b)
          (λ _. Queued)
          Queued
  unfolding detect_paid claim_detected
  detect_paid-Queued address none a = skip-Ensures (λ s p. inl p.0)
  detect_paid-Queued address (some x) a =
      if-Ensures (ltb x o.payment_amount) (λ _. skip-Ensures (λ s p. inl p.0))
        (λ f.
          known-Ensures (λ s p. p.1 x refl)
            (λ (n, e).
              bind-Ensures (λ _. Unqueued) (act-Ensures _ _ (λ m s p. (p.0, inl p.0, inl p.0)))
                (λ found. enqueue-Queued n address found a (ground (arith, e)))))

  detect_at-Queued :
      (a : Option ℕ)
      → o.payment_address ≡ a
      → Ensures Unqueued (detect_at config env id o a) (λ _. Queued) Queued
  unfolding detect_at
  detect_at-Queued none e = skip-Ensures (λ s p. inl p)
  detect_at-Queued (some address) e =
      if-Ensures (env.is_base_address address)
        (λ _.
          bind-Ensures (λ b s. Unqueued s × IsBalance address b)
            (weaken-Ensures (λ s p. p) (λ _ s p. p) (λ s p. inl p)
              (balance_or_none-IsBalance address))
            (λ b. detect_paid-Queued address b e))
        (λ _. skip-Ensures (λ s p. inl p))

module _ (config : Config) (env : Env) where
  -- However the buy watcher ends on an order, it has added no job, or that order's, and in that case
  -- the order's payment address held at least the order's price at a moment.
  pub detect_order_paid :
      (id : ℕ) (o : BuyOrder) (w : World Store)
      → Queued config env id o w.store.buy_jobs (detect_order config env id o w).1.store
  unfolding detect_order
  detect_order_paid id o w =
      run-Ensures (detect_at-Queued config env id o w.store.buy_jobs o.payment_address refl) w refl
