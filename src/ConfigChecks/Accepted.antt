-- ===== src/ConfigChecks/Accepted.antt =====
-- What a configuration with which the service starts guarantees (services/bridge/src/config.ts).

use native.Mathlib.Nat.{mul-add}
use faircoin_bridge.Amounts.{Shares, split_by_bps, split_by_bps-le, split_by_bps_exact}
use faircoin_bridge.ConfigChecks.{
  Issue, bps_sum, bps_total, check_config, masternode_address_required, reward_address_required,
  treasury_address_required, when,
}
use faircoin_bridge.Decimal.{split}
use faircoin_bridge.Prelude.{
  Bool, List, Option, [], ap, arith, false, is_none, none, not, refl, some, true, ℕ, ◌&&◌, ◌*◌,
  ◌++◌, ◌+◌, ◌==◌, ◌∷◌, ◌≡◌, ◌≤◌,
}
use faircoin_bridge.Store.{Config}

append-nil_left : {A : Type 0} (xs ys : List A) → xs ++ ys ≡ [] → (xs ≡ []) × (ys ≡ [])
append-nil_left [] ys h = (refl, h)
append-nil_left (x ∷ xs) ys h = absurd (cc)

when-nil : (b : Bool) (issue : Issue) → when b issue ≡ [] → b ≡ false
unfolding when
when-nil false issue h = refl
when-nil true issue h = absurd (cc)

address_given :
    (on : Bool) (address : Option ℕ)
    → (on && is_none address) ≡ false
    → on ≡ true
    → (a : ℕ) × (address ≡ some a)
address_given on none h e = absurd (ground arith)
address_given on (some a) h e = (a, refl)

burn_share :
    (total t m b : ℕ) → b + t + m ≡ 10_000 → total * b + total * t + total * m ≡ total * 10_000
burn_share total t m b h =
    omega (arith, mul-add total b t, mul-add total (b + t) m, ap (λ (x : ℕ). total * x) h)

-- What each check leaves when it finds nothing.
record IsSound (config : Config) : Type 0 where
  sum : bps_total config ≡ 10_000
  treasury : (config.buyback_enabled && is_none config.fair_treasury_address) ≡ false
  masternode : (config.buyback_enabled && is_none config.fair_masternode_reward_address) ≡ false
  rewards :
      (config.masternode_rewards_enabled && is_none config.fair_masternode_reward_address) ≡ false

sum_checked : (n : ℕ) → when (not (n == 10_000)) (bps_sum n) ≡ [] → n ≡ 10_000
unfolding when
sum_checked n h = ground arith

append-nil_four :
    (a b c d : List Issue) → a ++ (b ++ (c ++ d)) ≡ [] → (a ≡ []) × (b ≡ []) × (c ≡ []) × (d ≡ [])
append-nil_four a b c d h =
    let (p, rest) = append-nil_left a (b ++ (c ++ d)) h in
    let (q, rest') = append-nil_left b (c ++ d) rest in
    let (r, s) = append-nil_left c d rest' in (p, q, r, s)

accepted-IsSound : (config : Config) → check_config config ≡ [] → IsSound config
unfolding check_config
accepted-IsSound config h =
    let (p, q, r, s) = append-nil_four _ _ _ _ h in
    record {
      sum = sum_checked (bps_total config) p;
      treasury = when-nil _ treasury_address_required q;
      masternode = when-nil _ masternode_address_required r;
      rewards = when-nil _ reward_address_required s;
    }

-- With a configuration that the service accepts: any amount that a buy-back has acquired is split
-- without an error, all of it is given out, and the burn gets its basis points at least, since what
-- rounding takes from the other two goes to it; where the buy-back is enabled, the addresses of the
-- treasury and of the masternodes are set, and where the masternode rewards are enabled, the latter is.
pub accepted-split :
    (config : Config) (total : ℕ)
    → check_config config ≡ []
    → ((shares : Shares) × (split_by_bps total config.buyback_treasury_bps
            config.buyback_masternode_bps
          ≡ some shares)
        × (shares.burn + shares.treasury + shares.masternode ≡ total)
        × (total * config.buyback_burn_bps ≤ shares.burn * 10_000))
      × (config.buyback_enabled ≡ true
          → ((a : ℕ) × (config.fair_treasury_address ≡ some a))
            × ((a : ℕ) × (config.fair_masternode_reward_address ≡ some a)))
      × (config.masternode_rewards_enabled ≡ true
          → (a : ℕ) × (config.fair_masternode_reward_address ≡ some a))
unfolding bps_total
accepted-split config total h =
    let sound = accepted-IsSound config h in
    let t = config.buyback_treasury_bps in
    let m = config.buyback_masternode_bps in
    let (shares, split, whole) = split_by_bps_exact total t m (omega (arith, sound.sum)) in
    (
      (
        shares,
        split,
        whole,
        omega (
          arith,
          split_by_bps-le total t m shares split,
          whole,
          burn_share total t m config.buyback_burn_bps (omega (arith, sound.sum)),
        ),
      ),
      λ on. (
        address_given _ config.fair_treasury_address sound.treasury on,
        address_given _ config.fair_masternode_reward_address sound.masternode on,
      ),
      λ on. address_given _ config.fair_masternode_reward_address sound.rewards on,
    )
