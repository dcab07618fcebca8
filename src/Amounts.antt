-- ===== src/Amounts.antt =====
-- The amounts that move between the chains: 1 sat is 1e10 wei, and a fee is taken in basis points
-- (`applyFee` of services/bridge/src/workers/base-watcher.ts and fair-watcher.ts, `splitByBps` of
-- buyback-worker.ts, `computePerMasternodeSats` of masternode-reward-worker.ts).
use native.Mathlib.Nat.{div-mul-le_self, mul-add}
use faircoin_bridge.Effects.Retries.{total}
use faircoin_bridge.Prelude.{
  Bool, Option, arith, false, if◌then◌else◌, leb, ltb, mul_le, none, refl, some, suc, true, zero, ℕ,
  ◌*◌, ◌+◌, ◌-◌, ◌/◌, ◌<◌, ◌≡◌, ◌≤◌,
}

abbrev pub sats_to_wei : ℕ
sats_to_wei = 10_000_000_000

-- `applyFee`. A fee of more than 10,000 basis points makes a negative amount there, and 0 here.
unfoldable pub apply_fee : ℕ → ℕ → ℕ
apply_fee amount bps = amount * (10_000 - bps) / 10_000

-- A fee never makes an amount larger.
pub apply_fee_le : (amount bps : ℕ) → apply_fee amount bps ≤ amount
unfolding apply_fee
apply_fee_le amount bps = omega (arith, mul_le amount (10_000 - bps) 10_000 (omega arith))

-- `computePerMasternodeSats`, with the fee for one payout in sats
unfoldable pub compute_per_masternode_sats : (pool_sats count fee_sats : ℕ) → ℕ
compute_per_masternode_sats pool zero fee = 0
compute_per_masternode_sats pool (suc n) fee =
    if leb pool (fee * suc n) then 0 else (pool - fee * suc n) / suc n

-- Where a masternode is paid at all, all payouts and their fees are within the pool.
pub per_masternode_within_pool :
    (pool count fee : ℕ)
    → 0 < compute_per_masternode_sats pool count fee
    → compute_per_masternode_sats pool count fee * count + fee * count ≤ pool
unfolding compute_per_masternode_sats
per_masternode_within_pool pool zero fee h = absurd (omega arith)
per_masternode_within_pool pool (suc n) fee h =
    ground (arith, div-mul-le_self (pool - fee * suc n) (suc n))

-- What each destination of a buy-back gets.
pub record Shares : Type 0 where
  pub burn : ℕ
  pub treasury : ℕ
  pub masternode : ℕ

unfoldable pub shares_unless : (negative : Bool) → (total treasury masternode : ℕ) → Option Shares
shares_unless true total treasury masternode = none
shares_unless false total treasury masternode =
    some (record {
      burn = total - treasury - masternode;
      treasury = treasury;
      masternode = masternode;
    })

-- `splitByBps`; `none` where the source throws, on a negative burn share.
unfoldable pub split_by_bps : (total treasury_bps masternode_bps : ℕ) → Option Shares
unfolding shares_unless
split_by_bps total treasury_bps masternode_bps =
    let treasury = total * treasury_bps / 10_000 in
    let masternode = total * masternode_bps / 10_000 in
    shares_unless (ltb total (treasury + masternode)) total treasury masternode

share_le : (total a b : ℕ) → a + b ≤ 10_000 → total * a / 10_000 + total * b / 10_000 ≤ total
share_le total a b h = omega (arith, mul_le total (a + b) 10_000 h, mul-add total a b)

-- Where the shares of the treasury and the masternodes are at most 10,000 basis points together,
-- a split does not throw, and its three shares are the whole amount.
pub split_by_bps_exact :
    (total treasury_bps masternode_bps : ℕ)
    → treasury_bps + masternode_bps ≤ 10_000
    → (shares : Shares) × (split_by_bps total treasury_bps masternode_bps ≡ some shares)
      × (shares.burn + shares.treasury + shares.masternode ≡ total)
unfolding split_by_bps
split_by_bps_exact total treasury_bps masternode_bps h =
    go (total * treasury_bps / 10_000) (total * masternode_bps / 10_000)
      (share_le total treasury_bps masternode_bps h)
      (ltb total (total * treasury_bps / 10_000 + total * masternode_bps / 10_000)) refl
  where
    go :
        (t m : ℕ)
        → t + m ≤ total
        → (b : Bool) → ltb total (t + m) ≡ b
        → (shares : Shares) × (shares_unless b total t m ≡ some shares)
          × (shares.burn + shares.treasury + shares.masternode ≡ total)
    go t m le true e = absurd (ground (arith, le))
    go t m le false e = unfold shares_unless in (_, refl, omega (arith, le))

-- Whatever the basis points are, a split that does not throw gives out the whole amount.
pub split_by_bps-total :
    (total treasury_bps masternode_bps : ℕ) (shares : Shares)
    → split_by_bps total treasury_bps masternode_bps ≡ some shares
    → shares.burn + shares.treasury + shares.masternode ≡ total
unfolding split_by_bps shares_unless
split_by_bps-total total treasury_bps masternode_bps shares h = ground arith

-- Neither of the two rounded shares is more than its basis points of the amount.
pub split_by_bps-le :
    (total treasury_bps masternode_bps : ℕ) (shares : Shares)
    → split_by_bps total treasury_bps masternode_bps ≡ some shares
    → (shares.treasury * 10_000 ≤ total * treasury_bps)
      × (shares.masternode * 10_000 ≤ total * masternode_bps)
unfolding split_by_bps shares_unless
split_by_bps-le total treasury_bps masternode_bps shares h = (ground arith, ground arith)
