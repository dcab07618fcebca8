-- ===== src/AdminApi/Tests.antt =====
-- The admin API at concrete inputs; the sample token is "key".
use faircoin_bridge.AdminApi.{
  authorize, bearer, broken, passes, post_buyback_trigger, post_rewards_trigger,
}
use faircoin_bridge.AdminApi.Token.{authorize-passes}
use faircoin_bridge.AdminApi.Triggers.{HasToken, triggers_need_token}
use faircoin_bridge.Decimal.{Text}
use faircoin_bridge.Effects.{World}
use faircoin_bridge.Prelude.{Option, [], arith, refl, some, true, ◌++◌, ◌↔◌, ◌∷◌, ◌≡◌, ◌≢◌}
use faircoin_bridge.Samples.{calm_env, config, empty_store}
use faircoin_bridge.Store.{Store}

abbrev header : Option Text
header = some (bearer ++ b'k' ∷ b'e' ∷ b'x' ∷ [])

-- "ké" and one more character, as a header's bytes are read: as long as the token, but not in UTF-8.
abbrev longer_header : Option Text
longer_header = some (bearer ++ b'k' ∷ 233 ∷ b'y' ∷ [])

world : World Store
world = record { clock = 0; store = empty_store }

authorize-passes_example :
    (authorize config.admin_api_token header ≡ passes)
    ↔ ((t : Text) × (config.admin_api_token ≡ some t) × (t ≢ []) × (header ≡ some (bearer ++ t)))
authorize-passes_example = authorize-passes config.admin_api_token header

no_token : ¬ HasToken config header
no_token (t, e, n, h) = ground (arith, e, h)

triggers_need_token_example :
    ((post_buyback_trigger config calm_env header true world).1 ≡ world)
    × ((post_rewards_trigger config calm_env header true world).1 ≡ world)
triggers_need_token_example = triggers_need_token config calm_env header true world no_token

-- A header of the token's length with a character outside ASCII breaks the comparison.
comparison_breaks : authorize config.admin_api_token longer_header ≡ broken
unfolding authorize
comparison_breaks = refl
