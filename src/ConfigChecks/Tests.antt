-- ===== src/ConfigChecks/Tests.antt =====
-- The checks at concrete configurations.
use faircoin_bridge.Amounts.{Shares, split_by_bps}
use faircoin_bridge.ConfigChecks.{bps_sum, check_config}
use faircoin_bridge.ConfigChecks.Accepted.{accepted-split}
use faircoin_bridge.Prelude.{Option, [], refl, some, true, ℕ, ◌*◌, ◌+◌, ◌∷◌, ◌≡◌, ◌≤◌}
use faircoin_bridge.Samples.{config}

accepted : check_config config ≡ []
unfolding check_config
accepted = refl

accepted-split_example :
    ((shares : Shares) × (split_by_bps 999 3_000 2_000 ≡ some shares)
      × (shares.burn + shares.treasury + shares.masternode ≡ 999)
      × (999 * 5_000 ≤ shares.burn * 10_000))
    × (true ≡ true
        → ((a : ℕ) × (◌≡◌ {A = Option ℕ} (some 71) (some a)))
          × ((a : ℕ) × (◌≡◌ {A = Option ℕ} (some 72) (some a))))
    × (true ≡ true → (a : ℕ) × (◌≡◌ {A = Option ℕ} (some 72) (some a)))
accepted-split_example = accepted-split config 999 accepted

leftover_is_refused :
    check_config (record config { buyback_masternode_bps = 1_999 }) ≡ bps_sum 9_999 ∷ []
unfolding check_config
leftover_is_refused = refl
