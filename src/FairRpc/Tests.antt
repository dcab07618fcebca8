-- ===== src/FairRpc/Tests.antt =====
-- A block of two transactions, the second of which is read first, and the first has no outputs.
use mathlib.Core.List.{map}
use faircoin_bridge.Concurrency.{
  Pool, Run, begins, min, returned, settle, settles, start, steps, take, takes,
}
use faircoin_bridge.FairRpc.{
  GetBlockWithTxs, RawBlock, RawTransaction, decoded, fetch_tx, fetched, raw_block, vout_or_empty,
  with_txs,
}
use faircoin_bridge.FairRpc.Answers.{GetBlockWithTxs-IsBlockOf, IsBlockOf}
use faircoin_bridge.Models.Chain.{BlockTx}
use faircoin_bridge.Prelude.{List, [], if◌then◌else◌, none, refl, some, ℕ, ◌+◌, ◌==◌, ◌∷◌}
use faircoin_bridge.Samples.{output}

abbrev raw : RawBlock
raw = record {
  hash = 1050;
  height = 50;
  confirmations = 11;
  time = 7;
  previousblockhash = some 1049;
  tx = 8 ∷ 9 ∷ [];
}

abbrev getrawtransaction : ℕ → RawTransaction
getrawtransaction txid = record {
  txid = txid;
  vout = if txid == 9 then some (output ∷ []) else none;
}

abbrev txs : List BlockTx
txs = record { txid = 8; vout = [] } ∷ record { txid = 9; vout = output ∷ [] } ∷ []

abbrev all_read : Pool ℕ BlockTx
all_read = record { cursor = 4; results = map some txs; workers = returned ∷ returned ∷ [] }

out_of_order : Run raw.tx 5 (fetch_tx (λ h. 1000 + h) (λ _. raw) getrawtransaction) 6 all_read
unfolding start min take settle fetch_tx decoded vout_or_empty
out_of_order =
    steps
      (steps
        (steps (steps (steps (steps begins (takes 0 refl)) (takes 1 refl)) (settles 1 1 9 refl))
          (settles 0 0 8 refl))
        (takes 0 refl))
      (takes 1 refl)

block : GetBlockWithTxs (λ h. 1000 + h) (λ _. raw) getrawtransaction 50 (with_txs raw txs)
unfolding raw_block
block = fetched txs out_of_order (refl, (refl, tt)) refl

GetBlockWithTxs-IsBlockOf_example : IsBlockOf getrawtransaction raw (with_txs raw txs)
GetBlockWithTxs-IsBlockOf_example =
    GetBlockWithTxs-IsBlockOf (λ h. 1000 + h) (λ _. raw) getrawtransaction 50 (with_txs raw txs)
      block
