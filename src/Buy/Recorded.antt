-- ===== src/Buy/Recorded.antt =====
-- An order whose swap hash is on file (services/bridge/src/signer/buy.ts).
use faircoin_bridge.Buy.{
  BuyContext, buy_by_status, buy_loaded, buy_open, claim_swapping_or_reload, load_context,
  load_order, process_buy, set_order, swap_by_hash, swap_claimed, swap_hash_of, with_order,
}
use faircoin_bridge.Buy.Rest.{burn_after-kept, reconcile_swap-kept, with_index-kept}
use faircoin_bridge.Effects.{World}
use faircoin_bridge.Effects.Hoare.{
  Ensures, bind-Ensures, if-Ensures, known-Ensures, pre-Ensures, pure-Ensures, query-Ensures,
  run-Ensures, skip-Ensures, weaken-Ensures,
}
use faircoin_bridge.Effects.Keeps.{Keeps, bind-Keeps, pure-Keeps, skip-Keeps, throw-Keeps}
use faircoin_bridge.Models.BuyOrder.{BuyOrder, BuyOrderStatus}
use faircoin_bridge.Prelude.{
  List, Option, Option-cases, ap, arith, inl, inr, is_none, none, refl, some, subst, sym, ℕ, ◌∙◌,
  ◌≡◌,
}
use faircoin_bridge.Prelude.Collection.{Collection, find_by_id, find_by_id-update, update_by_id}
use faircoin_bridge.Store.{Config, Env, Store, Swap}

-- The order's swap hash is on file, and the swaps that were broadcast are `sent`.
pub record OnFile (id hash : ℕ) (sent : List Swap) (s : Store) : Type 0 where
  pub recorded : swap_hash_of (find_by_id id s.orders) ≡ some hash
  pub unsent : s.swaps ≡ sent

swap_hash_of-update :
    (id : ℕ) (f : BuyOrder → BuyOrder) (c : Collection BuyOrder)
    → ((o : BuyOrder) → (f o).swap_tx_hash ≡ o.swap_tx_hash)
    → swap_hash_of (find_by_id id (update_by_id id f c)) ≡ swap_hash_of (find_by_id id c)
swap_hash_of-update id f c h = elim (Option-cases (find_by_id id c)) [
  | inl e ↦ ground (arith, find_by_id-update id id f c)
  | inr (o, e) ↦ ground (arith, find_by_id-update id id f c, h o)
]

module _ (config : Config) (env : Env) (id hash : ℕ) (sent : List Swap) where
  abbrev IsKept : Store → Type 0
  IsKept = OnFile id hash sent

  respects : (s t : Store) → s.orders ≡ t.orders → s.swaps ≡ t.swaps → IsKept s → IsKept t
  respects s t orders swaps p = record {
    recorded = ap (λ c. swap_hash_of (find_by_id id c)) (sym orders) ∙ p.recorded;
    unsent = sym swaps ∙ p.unsent;
  }

  stable :
      (f : BuyOrder → BuyOrder)
      → ((o : BuyOrder) → (f o).swap_tx_hash ≡ o.swap_tx_hash)
      → (s : Store) → IsKept s
      → IsKept (set_order id f s)
  unfolding set_order
  stable f h s p = record {
    recorded = swap_hash_of-update id f s.orders h ∙ p.recorded;
    unsent = p.unsent;
  }

  swap_claimed-OnFile :
      (o : BuyOrder)
      → o.swap_tx_hash ≡ some hash
      → (address : ℕ) → Keeps IsKept (swap_claimed config env id address (some o))
  unfolding swap_claimed
  swap_claimed-OnFile o e address =
      bind-Keeps
        (subst (λ h. Keeps IsKept (swap_by_hash config env id address o h)) (sym e)
          (unfold swap_by_hash in
            bind-Keeps (reconcile_swap-kept config env id IsKept respects stable address hash)
              (λ wei. pure-Keeps _)))
        (burn_after-kept config env id IsKept respects stable o)

  buy_open-OnFile :
      (ctx : BuyContext)
      → ctx.order.swap_tx_hash ≡ some hash
      → Keeps IsKept (buy_open config env id ctx)
  unfolding buy_open claim_swapping_or_reload
  buy_open-OnFile ctx e =
      bind-Ensures (λ found s. IsKept s × (found ≡ some ctx.order))
        (if-Ensures (is_none ctx.order.swap_tx_hash) (λ unset. absurd (ground arith))
          (λ _. pure-Ensures _ (λ s p. (p, refl))))
        (λ found.
          known-Ensures (λ s p. p.1)
            (λ same.
              pre-Ensures (λ s p. p.0)
                (subst (λ x. Keeps IsKept (swap_claimed config env id ctx.payment_address x))
                  (sym same) (swap_claimed-OnFile ctx.order e ctx.payment_address))))

  buy_by_status-OnFile :
      (st : BuyOrderStatus) (ctx : BuyContext)
      → ctx.order.swap_tx_hash ≡ some hash
      → Keeps IsKept (buy_by_status config env st id ctx)
  unfolding buy_by_status
  buy_by_status-OnFile BuyOrderStatus.delivered ctx e = skip-Keeps
  buy_by_status-OnFile BuyOrderStatus.delivering ctx e = skip-Keeps
  buy_by_status-OnFile BuyOrderStatus.failed ctx e = throw-Keeps _
  buy_by_status-OnFile BuyOrderStatus.expired ctx e = throw-Keeps _
  buy_by_status-OnFile _ ctx e = buy_open-OnFile ctx e

  -- The context holds an order with this hash.
  abbrev Holds : Option BuyContext → Type 0
  Holds x = (c : BuyContext) → x ≡ some c → c.order.swap_tx_hash ≡ some hash

  buy_loaded-OnFile :
      (x : Option BuyContext)
      → Ensures (λ s. IsKept s × Holds x) (buy_loaded config env id x) (λ _. IsKept) IsKept
  unfolding buy_loaded
  buy_loaded-OnFile none = skip-Ensures (λ s p. p.0)
  buy_loaded-OnFile (some ctx) =
      known-Ensures (λ s p. p.1 ctx refl)
        (λ e. pre-Ensures (λ s p. p.0) (buy_by_status-OnFile ctx.order.status ctx e))

  with_order-OnFile :
      (found : Option BuyOrder)
      → Ensures
          (λ s. IsKept s × (swap_hash_of found ≡ some hash))
          (with_order config env found)
          (λ x s. IsKept s × Holds x)
          IsKept
  unfolding with_order
  with_order-OnFile none = known-Ensures (λ s p. p.1) (λ e. absurd (cc))
  with_order-OnFile (some o) =
      known-Ensures (λ s p. p.1)
        (λ e.
          weaken-Ensures (λ s p. p.0)
            (λ x s p. (p.0, λ c same. ap (λ (y : BuyOrder). y.swap_tx_hash) (p.1 c same) ∙ e))
            (λ s p. p) (with_index-kept config env id IsKept respects stable o o.payment_hd_index))

  process_buy-OnFile : Keeps IsKept (process_buy config env id)
  unfolding process_buy load_context load_order
  process_buy-OnFile =
      bind-Ensures (λ x s. IsKept s × Holds x)
        (bind-Ensures (λ found s. IsKept s × (swap_hash_of found ≡ some hash))
          (query-Ensures _ _ (λ s p. ((p, p.recorded), p))) with_order-OnFile)
        buy_loaded-OnFile

  -- Once an order's swap hash is on file, a run of the buy orchestrator, however its calls end,
  -- broadcasts no swap and leaves that hash on file.
  pub process_buy_once_recorded :
      (w : World Store)
      → OnFile id hash sent w.store
      → OnFile id hash sent (process_buy config env id w).1.store
  process_buy_once_recorded w p = run-Ensures process_buy-OnFile w p
