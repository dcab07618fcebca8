-- ===== src/Buyback/Burning.antt =====
-- How much WFAIR a buy-back cycle burns
-- (services/bridge/src/workers/buyback-worker.ts).
use faircoin_bridge.Amounts.{Shares, split_by_bps, split_by_bps-total}
use faircoin_bridge.Buyback.{
  BurnStepConfig, Destinations, Label, broadcast_bridge_burn, burn_by_hash, burn_steps, distribute,
  fail_cycle, mark_failed, reloaded, require_success, run_burn_step, run_burn_steps, set_cycle,
  set_failed, split_and_burn, step_hash, update_cycle, wait_receipt, write_audit,
}
use faircoin_bridge.Buyback.Hashes.{
  KeepsHashes, set_failed-KeepsHashes, set_status-KeepsHashes, set_step_hash-KeepsHashes,
  start_step-KeepsHashes,
}
use faircoin_bridge.Effects.{World, ◌>>=◌}
use faircoin_bridge.Effects.Hoare.{
  Ensures, act-Ensures, bind-Ensures, known-Ensures, pre-Ensures, pure-Ensures, query-Ensures,
  run-Ensures, throw-Ensures, weaken-Ensures,
}
use faircoin_bridge.Effects.Keeps.{
  Keeps, ask-Keeps, bind-Keeps, catch-Keeps, if-Keeps, modify-Keeps, skip-Keeps, then-Ensures,
  then-Keeps, throw-Keeps,
}
use faircoin_bridge.Models.Cycles.{BuybackCycle}
use faircoin_bridge.Prelude.{
  List, Option, [], arith, false, is_some, none, not_both, refl, some, some-injective, subst, sym,
  true, ℕ, ◌+◌, ◌∙◌, ◌∷◌, ◌≡◌, ◌≤◌,
}
use faircoin_bridge.Prelude.Collection.{find_by_id, find_by_id-update, find_by_id-update_self}
use faircoin_bridge.Store.{Alert, BridgeBurn, Config, Env, Receipt, Store, alert, require_wallet}

abbrev pub total_burned : List BridgeBurn → ℕ
total_burned [] = 0
total_burned (x ∷ xs) = x.amount + total_burned xs

-- What is left to burn of a share: nothing once its burn's hash is on file.
abbrev pub unfiled : Option ℕ → ℕ → ℕ
unfiled none amount = amount
unfiled (some _) amount = 0

-- What is left to burn of the shares of a cycle.
abbrev pub left_to_burn : BuybackCycle → Option Shares → ℕ
left_to_burn c none = 0
left_to_burn c (some shares) =
    unfiled c.burn_tx_hash shares.burn
    + unfiled c.treasury_tx_hash shares.treasury
    + unfiled c.masternode_tx_hash shares.masternode

module _ (config : Config) (env : Env) (id : ℕ) (before : BuybackCycle) (limit : ℕ) where
  abbrev step_total : List BurnStepConfig → ℕ
  step_total [] = 0
  step_total (x ∷ xs) = unfiled (step_hash x.label before) x.amount + step_total xs

  -- What was on file at first still is.
  abbrev Filed : BuybackCycle → Type 0
  Filed x = (l : Label) → is_some (step_hash l before) ≡ true → is_some (step_hash l x) ≡ true

  abbrev OnFile : Store → Type 0
  OnFile s = (x : BuybackCycle) → find_by_id id s.buybacks ≡ some x → Filed x

  -- With `k` more, the limit is not passed.
  abbrev Burned : ℕ → Store → Type 0
  Burned k s = (total_burned s.burns + k ≤ limit) × OnFile s

  less : {j k : ℕ} (s : Store) → k ≤ j → Burned j s → Burned k s
  less s le p = (omega (arith, le, p.0), p.1)

  set_cycle-OnFile :
      (f : BuybackCycle → BuybackCycle) (s : Store)
      → KeepsHashes f
      → OnFile s
      → OnFile (set_cycle id f s)
  unfolding set_cycle
  set_cycle-OnFile f s keeps filed x e l h = go (find_by_id id s.buybacks) refl
    where
      go : (o : Option BuybackCycle) → find_by_id id s.buybacks ≡ o → is_some (step_hash l x) ≡ true
      go none q = let u = find_by_id-update id id f s.buybacks in absurd (ground (arith, u, q, e))
      go (some y) q =
          let same = some-injective _ _ (sym (find_by_id-update_self id f s.buybacks q) ∙ e) in
          subst (λ z. is_some (step_hash l z) ≡ true) same (keeps l y (filed y q l h))

  update_cycle-Burned :
      (k : ℕ) (f : BuybackCycle → BuybackCycle)
      → KeepsHashes f
      → Keeps (Burned k) (update_cycle config env id f)
  unfolding update_cycle
  update_cycle-Burned k f keeps =
      modify-Keeps _ _ (λ s p. (unfold set_cycle in p.0, set_cycle-OnFile f s keeps p.1))

  alert-Burned : (k : ℕ) (a : Alert) → Keeps (Burned k) (alert env a)
  unfolding alert
  alert-Burned k a = modify-Keeps _ _ (λ s p. p)

  require_success-Burned :
      (k : ℕ) (r : Receipt) → Keeps (Burned k) (require_success config env id r)
  unfolding require_success fail_cycle mark_failed
  require_success-Burned k r = if-Keeps r.success skip-Keeps (
      then-Keeps
        (then-Keeps (update_cycle-Burned k set_failed set_failed-KeepsHashes) (alert-Burned k _))
        (throw-Keeps _))

  settle-Burned :
      (k h : ℕ) → Keeps (Burned k) (wait_receipt config env h >>= require_success config env id)
  unfolding wait_receipt
  settle-Burned k h = bind-Keeps (ask-Keeps _ _) (require_success-Burned k)

  require_wallet-Burned : (k : ℕ) → Keeps (Burned k) (require_wallet config)
  unfolding require_wallet
  require_wallet-Burned k = if-Keeps config.has_bridge_key skip-Keeps (throw-Keeps _)

  broadcast_bridge_burn-Burned :
      (k amount address : ℕ)
      → Ensures
          (Burned (amount + k))
          (broadcast_bridge_burn config env amount address)
          (λ _. Burned k)
          (Burned k)
  unfolding broadcast_bridge_burn
  broadcast_bridge_burn-Burned k amount address =
      then-Ensures (Burned (amount + k))
        (weaken-Ensures (λ s p. p) (λ _ s p. p) (λ s p. less s (omega arith) p)
          (require_wallet-Burned (amount + k)))
        (act-Ensures _ _ (λ n s p.
          let sent : total_burned s.burns + amount + k ≤ limit = omega (arith, p.0) in
          ((omega (arith, sent), p.1), less s (omega arith) p, (omega (arith, sent), p.1))))

  burn_by_hash-Burned :
      (k : ℕ) (step : BurnStepConfig) (o : Option ℕ)
      → (is_some (step_hash step.label before) ≡ true → is_some o ≡ true)
      → Ensures
          (Burned (unfiled (step_hash step.label before) step.amount + k))
          (burn_by_hash config env id step o)
          (λ _. Burned k)
          (Burned k)
  unfolding burn_by_hash
  burn_by_hash-Burned k step (some h) filed =
      pre-Ensures (λ s p. less s (omega arith) p) (settle-Burned k h)
  burn_by_hash-Burned k step none filed = go (step_hash step.label before) filed
    where
      go :
          (o : Option ℕ)
          → (is_some o ≡ true → false ≡ true)
          → Ensures
              (Burned (unfiled o step.amount + k))
              (burn_by_hash config env id step none)
              (λ _. Burned k)
              (Burned k)
      go (some h) gone = absurd (not_both (gone refl) refl)
      go none gone =
          then-Ensures (Burned (step.amount + k))
            (weaken-Ensures (λ s p. p) (λ _ s p. p) (λ s p. less s (omega arith) p)
              (update_cycle-Burned (step.amount + k) _ (start_step-KeepsHashes step)))
            (bind-Ensures (λ _. Burned k)
              (broadcast_bridge_burn-Burned k step.amount step.destination)
              (λ h.
                then-Keeps (update_cycle-Burned k _ (set_step_hash-KeepsHashes step.label h))
                  (settle-Burned k h)))

  run_burn_steps-Burned :
      (c : BuybackCycle) (rest : List BurnStepConfig)
      → Filed c
      → Ensures
          (Burned (step_total rest))
          (run_burn_steps config env id c rest)
          (λ _. Burned 0)
          (Burned 0)
  unfolding run_burn_steps run_burn_step
  run_burn_steps-Burned c [] filed = skip-Keeps
  run_burn_steps-Burned c (step ∷ rest) filed =
      then-Ensures (Burned (step_total rest))
        (weaken-Ensures (λ s p. p) (λ _ s p. p) (λ s p. less s (omega arith) p)
          (burn_by_hash-Burned (step_total rest) step _ (filed step.label)))
        (bind-Ensures (λ fresh s. Burned (step_total rest) s × Filed fresh)
          (bind-Ensures (λ o s. Burned (step_total rest) s × (find_by_id id s.buybacks ≡ o))
            (query-Ensures _ _ (λ s p. ((p, refl), less s (omega arith) p))) again)
          (λ fresh.
            known-Ensures (λ s p. p.1)
              (λ still. pre-Ensures (λ s p. p.0) (run_burn_steps-Burned fresh rest still))))
    where
      again :
          (o : Option BuybackCycle)
          → Ensures
              (λ s. Burned (step_total rest) s × (find_by_id id s.buybacks ≡ o))
              (reloaded config env o)
              (λ fresh s. Burned (step_total rest) s × Filed fresh)
              (Burned 0)
      again none = unfold reloaded in throw-Ensures _ (λ s p. less s (omega arith) p.0)
      again (some x) = unfold reloaded in pure-Ensures _ (λ s p. (p.0, p.0.1 x p.1))

  distribute-Burned :
      (dest : Destinations) (o : Option Shares)
      → Ensures
          (Burned (left_to_burn before o))
          (distribute config env id dest before o)
          (λ _. Burned 0)
          (Burned 0)
  unfolding distribute write_audit burn_steps step_hash
  distribute-Burned dest none = throw-Ensures _ (λ s p. p)
  distribute-Burned dest (some shares) =
      then-Ensures (Burned 0)
        (pre-Ensures (λ s p. less s (omega arith) p)
          (run_burn_steps-Burned before (burn_steps dest shares) (λ l h. h)))
        (then-Keeps (update_cycle-Burned 0 _ (set_status-KeepsHashes _))
          (catch-Keeps (modify-Keeps _ _ (λ s p. p)) (λ _. alert-Burned 0 _)))

unfiled-le : (o : Option ℕ) (amount : ℕ) → unfiled o amount ≤ amount
unfiled-le none amount = omega arith
unfiled-le (some _) amount = omega arith

left_to_burn-le :
    (c : BuybackCycle) (wei treasury masternode : ℕ) (o : Option Shares)
    → split_by_bps wei treasury masternode ≡ o
    → left_to_burn c o ≤ wei
left_to_burn-le c wei treasury masternode none e = omega arith
left_to_burn-le c wei treasury masternode (some x) e = omega (
  arith,
  split_by_bps-total wei treasury masternode x e,
  unfiled-le c.burn_tx_hash x.burn,
  unfiled-le c.treasury_tx_hash x.treasury,
  unfiled-le c.masternode_tx_hash x.masternode,
)

abbrev pub shares_of : Config → ℕ → Option Shares
shares_of config wei = split_by_bps wei config.buyback_treasury_bps config.buyback_masternode_bps

module _ (config : Config) (env : Env) where
  -- However a run of the distribution of `wei` for a cycle ends: it has burned at most the shares
  -- whose burn had no hash on file when the run began, which together are at most `wei`.
  pub split_and_burn_within :
      (id : ℕ) (dest : Destinations) (wei : ℕ) (c : BuybackCycle) (w : World Store)
      → find_by_id id w.store.buybacks ≡ some c
      → (total_burned (split_and_burn config env id dest (wei, c) w).1.store.burns
          ≤ total_burned w.store.burns + left_to_burn c (shares_of config wei))
        × (left_to_burn c (shares_of config wei) ≤ wei)
  unfolding split_and_burn
  split_and_burn_within id dest wei c w found =
      let start : OnFile config env id c 0 w.store = (λ x e l h.
        subst (λ y. is_some (step_hash l y) ≡ true) (some-injective _ _ (sym found ∙ e)) h) in
      let ended =
        run-Ensures
          (distribute-Burned config env id c
            (total_burned w.store.burns + left_to_burn c (shares_of config wei)) dest
            (shares_of config wei))
          w (omega arith, start) in
      (
        omega (arith, ended.0),
        left_to_burn-le c wei config.buyback_treasury_bps config.buyback_masternode_bps _ refl,
      )
