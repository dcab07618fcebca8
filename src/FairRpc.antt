-- ===== src/FairRpc.antt =====
-- services/bridge/src/rpc/fair.ts, `getBlockWithTxs`: a block of faircoind with its transactions,
-- which are read one by one by the workers of `mapWithConcurrency`. What faircoind answers to a call
-- is a parameter; a call that throws ends its worker, and no block is returned then.
pub mod Answers
mod Tests
use mathlib.Core.List.{map}
use faircoin_bridge.Concurrency.{IsFulfilled, Pool, Run}
use faircoin_bridge.Models.Chain.{BlockTx, TxVout}
use faircoin_bridge.Prelude.{List, Option, [], none, some, ℕ, ◌≡◌}

-- `getblock`, whose transactions are ids only.
pub record RawBlock : Type 0 where
  pub hash : ℕ
  pub height : ℕ
  pub confirmations : ℕ
  pub time : ℕ
  pub previousblockhash : Option ℕ
  pub tx : List ℕ

-- `getrawtransaction`
pub record RawTransaction : Type 0 where
  pub txid : ℕ
  pub vout : Option (List TxVout)

pub record BlockVerbose : Type 0 where
  pub hash : ℕ
  pub height : ℕ
  pub confirmations : ℕ
  pub time : ℕ
  pub previousblockhash : Option ℕ
  pub tx : List BlockTx

abbrev pub per_tx_fetch_concurrency : ℕ
per_tx_fetch_concurrency = 5

-- `raw.vout ?? []`
unfoldable pub vout_or_empty : Option (List TxVout) → List TxVout
vout_or_empty none = []
vout_or_empty (some vout) = vout

-- What the task answers for a transaction.
unfoldable pub decoded : RawTransaction → BlockTx
decoded raw = record { txid = raw.txid; vout = vout_or_empty raw.vout }

-- What is returned for a raw block and the results of the pool.
unfoldable pub with_txs : RawBlock → List BlockTx → BlockVerbose
with_txs raw txs = record {
  hash = raw.hash;
  height = raw.height;
  confirmations = raw.confirmations;
  time = raw.time;
  previousblockhash = raw.previousblockhash;
  tx = txs;
}

module _ (getblockhash : ℕ → ℕ) (getblock : ℕ → RawBlock)
    (getrawtransaction : ℕ → RawTransaction) where
  pub raw_block : ℕ → RawBlock
  raw_block height = getblock (getblockhash height)

  pub fetch_tx : ℕ → BlockTx
  fetch_tx txid = decoded (getrawtransaction txid)

  -- `getBlockWithTxs(height)` returns this block: some run of the pool over the block's ids has
  -- ended with all its promises fulfilled, and its results are the block's transactions.
  pub data GetBlockWithTxs (height : ℕ) : BlockVerbose → Type 0 where
    fetched :
        {n : ℕ} {p : Pool ℕ BlockTx} (txs : List BlockTx)
        → Run (raw_block height).tx per_tx_fetch_concurrency fetch_tx n p
        → IsFulfilled (raw_block height).tx per_tx_fetch_concurrency fetch_tx p
        → p.results ≡ map some txs
        → GetBlockWithTxs height (with_txs (raw_block height) txs)
