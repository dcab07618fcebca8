-- ===== src/FairRpc/Answers.antt =====
-- What the block that the workers read has of faircoind's answers
-- (services/bridge/src/rpc/fair.ts, `getBlockWithTxs`).
use mathlib.Core.List.{map}
use faircoin_bridge.Concurrency.Order.{fulfilled-map}
use faircoin_bridge.FairRpc.{
  BlockVerbose, GetBlockWithTxs, RawBlock, RawTransaction, decoded, fetch_tx, fetched,
  per_tx_fetch_concurrency, raw_block, vout_or_empty, with_txs,
}
use faircoin_bridge.Models.Chain.{BlockTx, TxVout}
use faircoin_bridge.Prelude.{
  List, Option, [], arith, inl, inr, none, refl, some, some-injective, subst, sym, ℕ, ◌∙◌, ◌∷◌, ◌≡◌,
  ◌⊎◌,
}

map-some_injective :
    {A B : Type 0} (f : A → B) (xs : List A) (ys : List B)
    → map some ys ≡ map (λ a. some (f a)) xs
    → ys ≡ map f xs
map-some_injective f [] [] e = refl
map-some_injective f [] (y ∷ ys) e = absurd (cc)
map-some_injective f (x ∷ xs) [] e = absurd (cc)
map-some_injective f (x ∷ xs) (y ∷ ys) e =
    let head : some y ≡ some (f x) = cc in
    let tail : map some ys ≡ map (λ a. some (f a)) xs = cc in
    cc (some-injective _ _ head, map-some_injective f xs ys tail)

-- The transaction that faircoind has, with no outputs where it gives none.
abbrev pub IsTxOf : RawTransaction → BlockTx → Type 0
IsTxOf raw tx =
    (tx.txid ≡ raw.txid) × ((raw.vout ≡ some tx.vout) ⊎ ((raw.vout ≡ none) × (tx.vout ≡ [])))

module _ (getrawtransaction : ℕ → RawTransaction) where
  -- One transaction for each id, in the order of the ids.
  abbrev pub AreTxsOf : List ℕ → List BlockTx → Type 0
  AreTxsOf [] [] = Unit
  AreTxsOf (txid ∷ ids) (tx ∷ txs) = IsTxOf (getrawtransaction txid) tx × AreTxsOf ids txs
  AreTxsOf _ _ = ⊥

  -- The raw block, with its transactions for their ids.
  pub record IsBlockOf (raw : RawBlock) (b : BlockVerbose) : Type 0 where
    pub hash : b.hash ≡ raw.hash
    pub height : b.height ≡ raw.height
    pub confirmations : b.confirmations ≡ raw.confirmations
    pub time : b.time ≡ raw.time
    pub previousblockhash : b.previousblockhash ≡ raw.previousblockhash
    pub tx : AreTxsOf raw.tx b.tx

decoded-IsTxOf : (raw : RawTransaction) → IsTxOf raw (decoded raw)
unfolding decoded
decoded-IsTxOf raw = (refl, outputs raw.vout)
  where
    outputs :
        (o : Option (List TxVout))
        → (o ≡ some (vout_or_empty o)) ⊎ ((o ≡ none) × (vout_or_empty o ≡ []))
    outputs none = unfold vout_or_empty in inr (refl, refl)
    outputs (some vout) = unfold vout_or_empty in inl refl

module _ (getblockhash : ℕ → ℕ) (getblock : ℕ → RawBlock)
    (getrawtransaction : ℕ → RawTransaction) where
  map-AreTxsOf :
      (ids : List ℕ)
      → AreTxsOf getrawtransaction ids (map (fetch_tx getblockhash getblock getrawtransaction) ids)
  unfolding fetch_tx
  map-AreTxsOf [] = tt
  map-AreTxsOf (txid ∷ ids) = (decoded-IsTxOf (getrawtransaction txid), map-AreTxsOf ids)

  -- Where faircoind gives the same answer to the same call: whatever order the workers run in, a
  -- block that is returned has the hash, the height, the confirmations, the time and the predecessor
  -- that `getblock` gives for the height's hash, and one transaction for each of its ids, in their
  -- order: that of `getrawtransaction`, with its outputs, or with none where it gives none.
  pub GetBlockWithTxs-IsBlockOf :
      (height : ℕ) (b : BlockVerbose)
      → GetBlockWithTxs getblockhash getblock getrawtransaction height b
      → IsBlockOf getrawtransaction (getblock (getblockhash height)) b
  unfolding raw_block with_txs
  GetBlockWithTxs-IsBlockOf height b (fetched {n} {p} txs r ended e) =
      let raw = getblock (getblockhash height) in
      let fetch = fetch_tx getblockhash getblock getrawtransaction in
      let answers = fulfilled-map raw.tx per_tx_fetch_concurrency fetch (omega arith) r ended in
      let same = map-some_injective fetch raw.tx txs (sym e ∙ answers) in
      record {
        hash = refl;
        height = refl;
        confirmations = refl;
        time = refl;
        previousblockhash = refl;
        tx = subst (λ l. AreTxsOf getrawtransaction raw.tx l) (sym same) (map-AreTxsOf raw.tx);
      }
