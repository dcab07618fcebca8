-- ===== src/Hd/Tests.antt =====
-- The allocation of indexes at concrete inputs.
use faircoin_bridge.Effects.{World, act, done, pure, skip, throw, ◌>>=◌, ◌>>◌}
use faircoin_bridge.Hd.{
  allocate_next_buy_payment_address, derive_buy_payment_key, get_buy_payment_root, inc_buy_payment,
}
use faircoin_bridge.Prelude.{false, refl, ◌≡◌}
use faircoin_bridge.Samples.{calm_env, config, empty_store}
use faircoin_bridge.Store.{Config, Store}

world : World Store
world = record { clock = 0; store = record empty_store { base_buy_payment_next_index = 14 } }

abbrev unconfigured : Config
unconfigured = record config { has_buy_key = false }

runs : Unit {0}
unfolding world allocate_next_buy_payment_address get_buy_payment_root inc_buy_payment
    derive_buy_payment_key act skip pure throw ◌>>=◌ ◌>>◌
runs = tt

-- Without a configured root, no index is used up.
no_root_uses_no_index :
    let w = (allocate_next_buy_payment_address unconfigured calm_env world).1 in
    w.store.base_buy_payment_next_index ≡ 14
unfolding runs
no_root_uses_no_index = refl

fifteenth :
    (allocate_next_buy_payment_address config calm_env world).0
    ≡ done (record { index = 14; address = 514 })
unfolding runs
fifteenth = refl
