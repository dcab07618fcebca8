-- ===== src/Models/Chain.antt =====
-- What the two chains report to the watchers. A FAIR value is held in sats, which is what
-- `fairValueToSats` makes of it, and a hash, an address or a byte string in a number.
use faircoin_bridge.Prelude.{List, Option, ℕ}

-- The arguments of a BridgeBurn event.
pub record Burn : Type 0 where
  pub from : ℕ
  pub amount : ℕ
  -- the destination's bytes, as the sender wrote them
  pub faircoin_address : ℕ

pub record Log : Type 0 where
  pub transaction_hash : Option ℕ
  pub log_index : Option ℕ
  pub block_number : Option ℕ
  -- what the event decodes to
  pub burn : Option Burn

pub record TxVout : Type 0 where
  pub n : ℕ
  pub sats : ℕ
  -- the first of `addresses` and `address`
  pub addresses : List ℕ
  pub address : Option ℕ

pub record BlockTx : Type 0 where
  pub txid : ℕ
  pub vout : List TxVout

pub data MasternodeStatus : Type 0 where
  enabled : MasternodeStatus
  -- EXPIRED, REMOVE, POSE_BAN and any other
  other_status : MasternodeStatus

pub record MasternodeListEntry : Type 0 where
  pub txhash : ℕ
  pub outidx : ℕ
  pub addr : ℕ
  pub status : MasternodeStatus
