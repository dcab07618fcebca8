-- ===== src/Health.antt =====
-- services/bridge/src/api/health.ts
use faircoin_bridge.Hd.{is_buy_payment_hd_configured}
use faircoin_bridge.Prelude.{Bool, Option, false, if◌then◌else◌, none, some, ℕ, ◌&&◌}
use faircoin_bridge.Store.{Config}

pub record HealthJson : Type 0 where
  pub ok : Bool
  pub mongo_ok : Bool
  pub redis_ok : Bool
  pub buy_ok : Bool

-- `healthRoute`, from the state of the connection to MongoDB and from what `ping` answers, `none`
-- where it throws; with the status of the response, and without the uptime.
health_route : Config → (mongo_ready : Bool) → (ping : Option Bool) → ℕ × HealthJson
health_route config mongo_ready ping =
    let redis_ok : Bool = elim ping [ none ↦ false | some is_pong ↦ is_pong ] in
    let ok = mongo_ready && redis_ok in
    (
      if ok then 200 else 503,
      record {
        ok = ok;
        mongo_ok = mongo_ready;
        redis_ok = redis_ok;
        buy_ok = is_buy_payment_hd_configured config;
      },
    )

-- `buyHealthRoute`
buy_health_route : Config → ℕ × Bool
buy_health_route config =
    (if is_buy_payment_hd_configured config then 200 else 503, is_buy_payment_hd_configured config)
