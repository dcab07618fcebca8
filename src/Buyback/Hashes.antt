-- ===== src/Buyback/Hashes.antt =====
-- The writes of a buy-back cycle take no hash of a burn off the file
-- (services/bridge/src/workers/buyback-worker.ts).
-- A write that takes no burn's hash off the file.
use faircoin_bridge.Buyback.{
  BurnStepConfig, Label, burn_label, masternode_label, set_failed, set_status, set_step_amount,
  set_step_hash, start_step, step_hash, treasury_label,
}
use faircoin_bridge.Models.Cycles.{BuybackCycle, BuybackStatus}
use faircoin_bridge.Prelude.{is_some, refl, true, ℕ, ◌≡◌}

abbrev pub KeepsHashes : (BuybackCycle → BuybackCycle) → Type 0
KeepsHashes f =
    (l : Label) (x : BuybackCycle)
    → is_some (step_hash l x) ≡ true
    → is_some (step_hash l (f x)) ≡ true

pub set_failed-KeepsHashes : KeepsHashes set_failed
unfolding set_failed step_hash
set_failed-KeepsHashes burn_label x h = h
set_failed-KeepsHashes treasury_label x h = h
set_failed-KeepsHashes masternode_label x h = h

pub set_status-KeepsHashes : (st : BuybackStatus) → KeepsHashes (set_status st)
unfolding set_status step_hash
set_status-KeepsHashes st burn_label x h = h
set_status-KeepsHashes st treasury_label x h = h
set_status-KeepsHashes st masternode_label x h = h

set_step_amount-KeepsHashes : (k : Label) (a : ℕ) → KeepsHashes (set_step_amount k a)
unfolding set_step_amount step_hash
set_step_amount-KeepsHashes burn_label a burn_label x h = h
set_step_amount-KeepsHashes burn_label a treasury_label x h = h
set_step_amount-KeepsHashes burn_label a masternode_label x h = h
set_step_amount-KeepsHashes treasury_label a burn_label x h = h
set_step_amount-KeepsHashes treasury_label a treasury_label x h = h
set_step_amount-KeepsHashes treasury_label a masternode_label x h = h
set_step_amount-KeepsHashes masternode_label a burn_label x h = h
set_step_amount-KeepsHashes masternode_label a treasury_label x h = h
set_step_amount-KeepsHashes masternode_label a masternode_label x h = h

pub set_step_hash-KeepsHashes : (k : Label) (hash : ℕ) → KeepsHashes (set_step_hash k hash)
unfolding set_step_hash step_hash
set_step_hash-KeepsHashes burn_label hash burn_label x h = refl
set_step_hash-KeepsHashes burn_label hash treasury_label x h = h
set_step_hash-KeepsHashes burn_label hash masternode_label x h = h
set_step_hash-KeepsHashes treasury_label hash burn_label x h = h
set_step_hash-KeepsHashes treasury_label hash treasury_label x h = refl
set_step_hash-KeepsHashes treasury_label hash masternode_label x h = h
set_step_hash-KeepsHashes masternode_label hash burn_label x h = h
set_step_hash-KeepsHashes masternode_label hash treasury_label x h = h
set_step_hash-KeepsHashes masternode_label hash masternode_label x h = refl

pub start_step-KeepsHashes : (step : BurnStepConfig) → KeepsHashes (start_step step)
unfolding start_step
start_step-KeepsHashes step l x h =
    set_status-KeepsHashes _ l _ (set_step_amount-KeepsHashes step.label step.amount l x h)
