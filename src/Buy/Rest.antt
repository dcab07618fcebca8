-- ===== src/Buy/Rest.antt =====
-- The steps of the buy orchestrator that send no swap
-- (services/bridge/src/signer/buy.ts).
use faircoin_bridge.Buy.{
  BuyContext, burn_after, burn_by_hash, burn_claimed, burn_if_burning, claim_burning,
  claim_burning_or_reload, claim_effect, claim_swapping, claim_swapping_or_reload, context_of,
  ensure_payment_gas_budget, ensure_usdc_allowance, execute_burn, load_order, or_else, or_reload,
  payment_gas_topup_wei, reconcile_burn, reconcile_swap, require_mined, require_success, send_burn,
  set_burn_hash, set_failed, set_order, set_status, settle_burn, top_up, update_order, wait_receipt,
  with_index, write_audit,
}
use faircoin_bridge.Effects.Hoare.{Ensures, if-Ensures, pure-Ensures, throw-Ensures}
use faircoin_bridge.Effects.Keeps.{
  Keeps, act-Keeps, ask-Keeps, bind-Keeps, catch-Keeps, if-Keeps, modify-Keeps, pure-Keeps,
  query-Keeps, skip-Keeps, then-Keeps, throw-Keeps,
}
use faircoin_bridge.Models.BuyOrder.{BuyOrder, BuyOrderStatus}
use faircoin_bridge.Prelude.{
  Bool, Option, ap, inl, inr, is_none, leb, none, refl, some, some-injective, sym, ℕ, ◌==◌, ◌≡◌,
}
use faircoin_bridge.Prelude.Collection.{claim_by_id-cases}
use faircoin_bridge.Store.{Alert, Config, Env, Receipt, Store, alert}

-- `I` is kept by what touches neither the orders nor the swaps, and by a write to an order that
-- leaves the swap's hash alone.
module _ (config : Config) (env : Env) (id : ℕ) (I : Store → Type 0)
    (respects : (s t : Store) → s.orders ≡ t.orders → s.swaps ≡ t.swaps → I s → I t)
    (stable : (f : BuyOrder → BuyOrder)
      → ((o : BuyOrder) → (f o).swap_tx_hash ≡ o.swap_tx_hash)
      → (s : Store) → I s
      → I (set_order id f s)) where
  pub update_order-kept :
      (f : BuyOrder → BuyOrder)
      → ((o : BuyOrder) → (f o).swap_tx_hash ≡ o.swap_tx_hash)
      → Keeps I (update_order config env id f)
  unfolding update_order
  update_order-kept f h = modify-Keeps _ _ (λ s p. stable f h s p)

  alert-kept : (a : Alert) → Keeps I (alert env a)
  unfolding alert
  alert-kept a = modify-Keeps _ _ (λ s p. respects s _ refl refl p)

  pub require_success-kept : (r : Receipt) → Keeps I (require_success config env id r)
  unfolding require_success set_failed
  require_success-kept r =
      if-Keeps r.success skip-Keeps (then-Keeps (update_order-kept _ (λ o. refl)) (throw-Keeps _))

  pub wait_receipt-kept : (h : ℕ) → Keeps I (wait_receipt config env h)
  unfolding wait_receipt
  wait_receipt-kept h = ask-Keeps _ _

  require_mined-kept : (r : Receipt) → Keeps I (require_mined config env r)
  unfolding require_mined
  require_mined-kept r = if-Keeps r.success skip-Keeps (throw-Keeps _)

  pub ensure_payment_gas_budget-kept :
      (address : ℕ) → Keeps I (ensure_payment_gas_budget config env address)
  unfolding ensure_payment_gas_budget top_up
  ensure_payment_gas_budget-kept address = bind-Keeps (ask-Keeps _ _) λ balance.
      if-Keeps (leb payment_gas_topup_wei balance) skip-Keeps (
        then-Keeps (if-Keeps config.has_bridge_key skip-Keeps (throw-Keeps _)) (
          bind-Keeps (act-Keeps _ _ (λ n s p. respects s _ refl refl p))
            (λ h. bind-Keeps (wait_receipt-kept h) require_mined-kept)))

  pub ensure_usdc_allowance-kept :
      (address amount : ℕ) → Keeps I (ensure_usdc_allowance config env address amount)
  unfolding ensure_usdc_allowance
  ensure_usdc_allowance-kept address amount = bind-Keeps (ask-Keeps _ _) λ allowance.
      if-Keeps (leb amount allowance) skip-Keeps (
        bind-Keeps
          (bind-Keeps (act-Keeps _ _ (λ n s p. respects s _ refl refl p)) wait_receipt-kept)
          require_mined-kept)

  claim_effect-kept :
      (filter : BuyOrder → Bool) (status : BuyOrderStatus) (s : Store)
      → I s
      → I (claim_effect id filter status s).1
  unfolding claim_effect
  claim_effect-kept filter status s p =
      elim (claim_by_id-cases id filter (set_status status) s.orders) [
        | inl e ↦ respects s _ (sym e) refl p
        | inr e ↦
            respects (set_order id (set_status status) s) _ (unfold set_order in sym e)
              (unfold set_order in refl)
              (stable (set_status status) (unfold set_status in λ o. refl) s p)
      ]

  or_reload-kept : (found : Option BuyOrder) → Keeps I (or_reload config env id found)
  unfolding or_reload load_order
  or_reload-kept none = query-Keeps _ _
  or_reload-kept (some o) = pure-Keeps _

  pub claim_swapping_or_reload-kept :
      (o : BuyOrder) → Keeps I (claim_swapping_or_reload config env id o)
  unfolding claim_swapping_or_reload claim_swapping
  claim_swapping_or_reload-kept o =
      if-Keeps (is_none o.swap_tx_hash)
        (bind-Keeps (act-Keeps _ _ (λ n s p. claim_effect-kept _ _ s p)) or_reload-kept)
        (pure-Keeps _)

  claim_burning_or_reload-kept : (o : BuyOrder) → Keeps I (claim_burning_or_reload config env id o)
  unfolding claim_burning_or_reload claim_burning
  claim_burning_or_reload-kept o =
      if-Keeps (is_none o.burn_tx_hash)
        (bind-Keeps (act-Keeps _ _ (λ n s p. claim_effect-kept _ _ s p)) or_reload-kept)
        (pure-Keeps _)

  settle_burn-kept : (h : ℕ) → Keeps I (settle_burn config env id h)
  unfolding settle_burn set_status
  settle_burn-kept h =
      bind-Keeps (wait_receipt-kept h)
        λ r. then-Keeps (require_success-kept r) (update_order-kept _ (λ o. refl))

  write_audit-kept : Keeps I (write_audit config env id)
  unfolding write_audit
  write_audit-kept =
      catch-Keeps (modify-Keeps _ _ (λ s p. respects s _ refl refl p)) (λ _. alert-kept _)

  burn_if_burning-kept :
      (wei : ℕ) (o : BuyOrder) (st : BuyOrderStatus)
      → Keeps I (burn_if_burning config env id wei o st)
  unfolding burn_if_burning execute_burn send_burn set_burn_hash
  burn_if_burning-kept wei o BuyOrderStatus.burning =
      then-Keeps
        (bind-Keeps (act-Keeps _ _ (λ n s p. respects s _ refl refl p))
          (λ h. then-Keeps (update_order-kept _ (λ o. refl)) (settle_burn-kept h)))
        write_audit-kept
  burn_if_burning-kept wei o _ = skip-Keeps

  burn_by_hash-kept :
      (wei : ℕ) (o : BuyOrder) (h : Option ℕ) → Keeps I (burn_by_hash config env id wei o h)
  unfolding burn_by_hash reconcile_burn
  burn_by_hash-kept wei o (some h) = then-Keeps (settle_burn-kept h) write_audit-kept
  burn_by_hash-kept wei o none = burn_if_burning-kept wei o o.status

  burn_claimed-kept :
      (wei : ℕ) (found : Option BuyOrder) → Keeps I (burn_claimed config env id wei found)
  unfolding burn_claimed
  burn_claimed-kept wei none = skip-Keeps
  burn_claimed-kept wei (some o) = burn_by_hash-kept wei o o.burn_tx_hash

  pub burn_after-kept : (o : BuyOrder) (wei : Option ℕ) → Keeps I (burn_after config env id o wei)
  unfolding burn_after load_order
  burn_after-kept o none = skip-Keeps
  burn_after-kept o (some wei) =
      bind-Keeps (query-Keeps _ _)
        λ fresh. bind-Keeps (claim_burning_or_reload-kept (or_else fresh o)) (burn_claimed-kept wei)

  pub reconcile_swap-kept : (address h : ℕ) → Keeps I (reconcile_swap config env id address h)
  unfolding reconcile_swap
  reconcile_swap-kept address h =
      bind-Keeps (wait_receipt-kept h) λ r. then-Keeps (require_success-kept r) (ask-Keeps _ _)

  context_of-kept :
      (o : BuyOrder) (key : ℕ) (a : Option ℕ)
      → Ensures I
          (context_of config env o key a)
          (λ x s. I s × ((c : BuyContext) → x ≡ some c → c.order ≡ o))
          I
  unfolding context_of
  context_of-kept o key none =
      pure-Ensures _
        (λ s p. (p, λ c e. ap (λ (x : BuyContext). x.order) (sym (some-injective _ _ e))))
  context_of-kept o key (some a) =
      if-Ensures (a == key)
        (λ _.
          pure-Ensures _
            (λ s p. (p, λ c e. ap (λ (x : BuyContext). x.order) (sym (some-injective _ _ e)))))
        (λ _. throw-Ensures _ (λ s p. p))

  -- The context holds the order that was loaded.
  pub with_index-kept :
      (o : BuyOrder) (i : Option ℕ)
      → Ensures I
          (with_index config env o i)
          (λ x s. I s × ((c : BuyContext) → x ≡ some c → c.order ≡ o))
          I
  unfolding with_index
  with_index-kept o none = throw-Ensures _ (λ s p. p)
  with_index-kept o (some i) = context_of-kept o _ o.payment_address
