-- ===== src/AdminApi/Triggers.antt =====
-- Nothing happens without the token (services/bridge/src/api/admin.ts).
-- The request carries the configured token.
use faircoin_bridge.AdminApi.{
  AdminResponse, AuthResult, authorize, bearer, broken, guarded, hidden, pass, passes,
  post_buyback_trigger, post_rewards_trigger, unauthorized,
}
use faircoin_bridge.AdminApi.Token.{authorize-passes}
use faircoin_bridge.Decimal.{Text}
use faircoin_bridge.Effects.{World, pure, throw}
use faircoin_bridge.Prelude.{Bool, Option, [], refl, some, ◌++◌, ◌≡◌, ◌≢◌}
use faircoin_bridge.Store.{Action, Config, Env, Store}

abbrev pub HasToken : Config → Option Text → Type 0
HasToken config header =
    (t : Text) × (config.admin_api_token ≡ some t) × (t ≢ []) × (header ≡ some (bearer ++ t))

module _ (config : Config) (env : Env) where
  pass-idle :
      (r : AuthResult) (handler : Action AdminResponse) (w : World Store)
      → r ≢ passes
      → (pass config env r handler w).1 ≡ w
  unfolding pass pure throw
  pass-idle hidden handler w n = refl
  pass-idle unauthorized handler w n = refl
  pass-idle broken handler w n = refl
  pass-idle passes handler w n = absurd (n refl)

  -- A request without the configured token runs no cycle: neither trigger changes anything.
  pub triggers_need_token :
      (header : Option Text) (is_empty_body : Bool) (w : World Store)
      → ¬ HasToken config header
      → ((post_buyback_trigger config env header is_empty_body w).1 ≡ w)
        × ((post_rewards_trigger config env header is_empty_body w).1 ≡ w)
  unfolding post_buyback_trigger post_rewards_trigger guarded
  triggers_need_token header is_empty_body w no_token = (idle _, idle _)
    where
      idle :
          (handler : Action AdminResponse)
          → (pass config env (authorize config.admin_api_token header) handler w).1 ≡ w
      idle handler =
          pass-idle (authorize config.admin_api_token header) handler w
            (λ e. no_token ((authorize-passes config.admin_api_token header).0 e))
