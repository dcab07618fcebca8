-- ===== src/Buy/Attempts.antt =====
-- Retries of one buy job (services/bridge/src/signer/buy.ts).
use faircoin_bridge.Buy.{
  BuyContext, buy_by_status, buy_loaded, buy_open, execute_swap, load_context, load_order,
  process_buy, require_usdc, run, send_swap, set_order, swap_by_hash, swap_claimed,
  swap_if_swapping, swap_on_file, update_order, with_order,
}
use faircoin_bridge.Buy.Recorded.{process_buy_once_recorded}
use faircoin_bridge.Buy.Rest.{
  burn_after-kept, claim_swapping_or_reload-kept, ensure_payment_gas_budget-kept,
  ensure_usdc_allowance-kept, reconcile_swap-kept, require_success-kept, wait_receipt-kept,
  with_index-kept,
}
use faircoin_bridge.Effects.{World}
use faircoin_bridge.Effects.Hoare.{
  Ensures, act-Ensures, bind-Ensures, pre-Ensures, run-Ensures, weaken-Ensures,
}
use faircoin_bridge.Effects.Keeps.{
  Keeps, ask-Keeps, bind-Keeps, if-Keeps, modify-Keeps, pure-Keeps, query-Keeps, skip-Keeps,
  then-Ensures, then-Keeps, throw-Keeps,
}
use faircoin_bridge.Effects.Retries.{attempts, attempts-sent, unrecorded}
use faircoin_bridge.Models.BuyOrder.{BuyOrder, BuyOrderStatus}
use faircoin_bridge.Prelude.{
  List, Option, ap, inl, inr, leb, length, none, refl, some, sym, ℕ, ◌+◌, ◌∙◌, ◌∷◌, ◌≡◌, ◌≤◌, ◌⊎◌,
}
use faircoin_bridge.Store.{Action, Config, Env, Store, Swap}

module _ (config : Config) (env : Env) (id : ℕ) (before : List Swap) where
  abbrev Unsent : Store → Type 0
  Unsent s = s.swaps ≡ before

  -- At most one swap has been broadcast.
  abbrev Sent : Store → Type 0
  Sent s = (s.swaps ≡ before) ⊎ ((x : Swap) × (s.swaps ≡ x ∷ before))

  Unsent-respects : (s t : Store) → s.orders ≡ t.orders → s.swaps ≡ t.swaps → Unsent s → Unsent t
  Unsent-respects s t _ swaps p = sym swaps ∙ p

  Sent-respects : (s t : Store) → s.orders ≡ t.orders → s.swaps ≡ t.swaps → Sent s → Sent t
  Sent-respects s t _ swaps (inl p) = inl (sym swaps ∙ p)
  Sent-respects s t _ swaps (inr (x, p)) = inr (x, sym swaps ∙ p)

  Unsent-stable :
      (f : BuyOrder → BuyOrder)
      → ((o : BuyOrder) → (f o).swap_tx_hash ≡ o.swap_tx_hash)
      → (s : Store) → Unsent s
      → Unsent (set_order id f s)
  unfolding set_order
  Unsent-stable f h s p = p

  Sent-stable :
      (f : BuyOrder → BuyOrder)
      → ((o : BuyOrder) → (f o).swap_tx_hash ≡ o.swap_tx_hash)
      → (s : Store) → Sent s
      → Sent (set_order id f s)
  unfolding set_order
  Sent-stable f h s p = p

  abbrev SwapsOnce : {A : Type 0} → Action A → Type 0
  SwapsOnce m = Ensures Unsent m (λ _. Sent) Sent

  quietly : {A : Type 0} {m : Action A} → Keeps Unsent m → Ensures Unsent m (λ _. Unsent) Sent
  quietly k = weaken-Ensures (λ s p. p) (λ _ s p. p) (λ s p. inl p) k

  rest : {A : Type 0} {m : Action A} → Keeps Sent m → SwapsOnce m
  rest k = pre-Ensures (λ s p. inl p) k

  any_update-Sent : (f : BuyOrder → BuyOrder) → Keeps Sent (update_order config env id f)
  unfolding update_order set_order
  any_update-Sent f = modify-Keeps _ _ (λ s p. p)

  push : (x : Swap) (s : Store) → Unsent s → Sent (record s { swaps = x ∷ s.swaps })
  push x s p = inr (x, ap (λ l. x ∷ l) p)

  send_swap-Sent : (usdc expected : ℕ) → SwapsOnce (send_swap config env usdc expected)
  unfolding send_swap
  send_swap-Sent usdc expected = act-Ensures _ _ (λ n s p. (push _ s p, inl p, push _ s p))

  execute_swap-Sent : (address : ℕ) → SwapsOnce (execute_swap config env id address)
  unfolding execute_swap require_usdc
  execute_swap-Sent address =
      bind-Ensures (λ _. Unsent) (quietly (ask-Keeps _ _))
        λ usdc. then-Ensures Unsent (quietly (if-Keeps (leb usdc 0) (throw-Keeps _) skip-Keeps)) (
          then-Ensures Unsent
            (quietly (
              ensure_payment_gas_budget-kept config env id Unsent Unsent-respects Unsent-stable
                address))
            (then-Ensures Unsent
              (quietly (
                ensure_usdc_allowance-kept config env id Unsent Unsent-respects Unsent-stable
                  address usdc))
              (bind-Ensures (λ _. Unsent) (quietly (ask-Keeps _ _))
                (λ expected.
                  bind-Ensures (λ _. Sent) (send_swap-Sent usdc expected)
                    (λ h. then-Keeps (any_update-Sent _) (
                      bind-Keeps (wait_receipt-kept config env id Sent Sent-respects Sent-stable h)
                        (λ r.
                          then-Keeps
                            (require_success-kept config env id Sent Sent-respects Sent-stable r)
                            (bind-Keeps (ask-Keeps _ _)
                              (λ wei. then-Keeps (any_update-Sent _) (pure-Keeps _))))))))))

  swap_by_hash-Sent :
      (address : ℕ) (o : BuyOrder) (h : Option ℕ)
      → SwapsOnce (swap_by_hash config env id address o h)
  unfolding swap_by_hash
  swap_by_hash-Sent address o (some h) = rest (
      bind-Keeps (reconcile_swap-kept config env id Sent Sent-respects Sent-stable address h)
        (λ wei. pure-Keeps _))
  swap_by_hash-Sent address o none = by_status o.status
    where
      by_status : (st : BuyOrderStatus) → SwapsOnce (swap_if_swapping config env id address st)
      by_status BuyOrderStatus.swapping =
          unfold swap_if_swapping in
          bind-Ensures (λ _. Sent) (execute_swap-Sent address) (λ wei. pure-Keeps _)
      by_status BuyOrderStatus.awaiting_payment = unfold swap_if_swapping in rest (pure-Keeps _)
      by_status BuyOrderStatus.payment_detected = unfold swap_if_swapping in rest (pure-Keeps _)
      by_status BuyOrderStatus.burning = unfold swap_if_swapping in rest (pure-Keeps _)
      by_status BuyOrderStatus.delivering = unfold swap_if_swapping in rest (pure-Keeps _)
      by_status BuyOrderStatus.delivered = unfold swap_if_swapping in rest (pure-Keeps _)
      by_status BuyOrderStatus.failed = unfold swap_if_swapping in rest (pure-Keeps _)
      by_status BuyOrderStatus.expired = unfold swap_if_swapping in rest (pure-Keeps _)

  swap_claimed-Sent :
      (address : ℕ) (found : Option BuyOrder) → SwapsOnce (swap_claimed config env id address found)
  unfolding swap_claimed
  swap_claimed-Sent address none = rest skip-Keeps
  swap_claimed-Sent address (some o) =
      bind-Ensures (λ _. Sent) (swap_by_hash-Sent address o o.swap_tx_hash)
        (burn_after-kept config env id Sent Sent-respects Sent-stable o)

  buy_by_status-Sent :
      (st : BuyOrderStatus) (ctx : BuyContext) → SwapsOnce (buy_by_status config env st id ctx)
  unfolding buy_by_status buy_open
  buy_by_status-Sent BuyOrderStatus.delivered ctx = rest skip-Keeps
  buy_by_status-Sent BuyOrderStatus.delivering ctx = rest skip-Keeps
  buy_by_status-Sent BuyOrderStatus.failed ctx = rest (throw-Keeps _)
  buy_by_status-Sent BuyOrderStatus.expired ctx = rest (throw-Keeps _)
  buy_by_status-Sent _ ctx =
      bind-Ensures (λ _. Unsent)
        (quietly (
          claim_swapping_or_reload-kept config env id Unsent Unsent-respects Unsent-stable
            ctx.order))
        (swap_claimed-Sent ctx.payment_address)

  buy_loaded-Sent : (x : Option BuyContext) → SwapsOnce (buy_loaded config env id x)
  unfolding buy_loaded
  buy_loaded-Sent none = rest skip-Keeps
  buy_loaded-Sent (some ctx) = buy_by_status-Sent ctx.order.status ctx

  with_order-Unsent : (found : Option BuyOrder) → Keeps Unsent (with_order config env found)
  unfolding with_order
  with_order-Unsent none = pure-Keeps _
  with_order-Unsent (some o) =
      weaken-Ensures (λ s p. p) (λ _ s p. p.0) (λ s p. p)
        (with_index-kept config env id Unsent Unsent-respects Unsent-stable o o.payment_hd_index)

  process_buy-Sent : SwapsOnce (process_buy config env id)
  unfolding process_buy load_context load_order
  process_buy-Sent =
      bind-Ensures (λ _. Unsent) (quietly (bind-Keeps (query-Keeps _ _) with_order-Unsent))
        buy_loaded-Sent

module _ (config : Config) (env : Env) (id : ℕ) where
  run_once :
      (w : World Store)
      → ((run config env id w).store.swaps ≡ w.store.swaps)
        ⊎ ((x : Swap) × ((run config env id w).store.swaps ≡ x ∷ w.store.swaps))
  unfolding run
  run_once w = run-Ensures (process_buy-Sent config env id w.store.swaps) w refl

  run-kept :
      (w : World Store) (h : ℕ)
      → swap_on_file id w.store ≡ some h
      → (swap_on_file id (run config env id w).store ≡ some h)
        × ((run config env id w).store.swaps ≡ w.store.swaps)
  unfolding run swap_on_file
  run-kept w h p =
      let kept =
        process_buy_once_recorded config env id h w.store.swaps w
          (record { recorded = p; unsent = refl }) in
      (kept.recorded, kept.unsent)

  -- However often a buy job runs, and however each run ends, it broadcasts at most one swap,
  -- and at most one more for each run that broadcast one and left no swap hash on file.
  pub attempts-swaps :
      (n : ℕ) (w : World Store)
      → length (attempts (run config env id) n w).store.swaps
        ≤ length w.store.swaps
          + 1
          + unrecorded (run config env id) (λ s. s.swaps) (swap_on_file id) n w
  attempts-swaps n w = attempts-sent _ _ _ run_once run-kept n w
