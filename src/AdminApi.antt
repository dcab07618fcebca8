-- ===== src/AdminApi.antt =====
-- services/bridge/src/api/admin.ts: the bearer token of the admin API, and its two triggers. The rate
-- limit of express-rate-limit stands before the token. A status lists cycles as they are stored.
pub mod Token
pub mod Triggers
mod Tests
use mathlib.Core.List.{reverse}
use faircoin_bridge.Buyback.{run_one_cycle}
use faircoin_bridge.Decimal.{Text}
use faircoin_bridge.Effects.{Error, catch, pure, query, throw, ◌>>=◌, ◌>>◌}
use faircoin_bridge.MasternodeRewards.{run_masternode_reward_tick}
use faircoin_bridge.Models.Cycles.{BuybackCycle, RewardCycle}
use faircoin_bridge.Prelude.{
  Bool, Option, [], false, first, if◌then◌else◌, length, ltb, none, some, true, ℕ, ◌%◌, ◌&&◌, ◌++◌,
  ◌+◌, ◌/◌, ◌==◌, ◌∷◌,
}
use faircoin_bridge.Prelude.Collection.{Collection}
use faircoin_bridge.Store.{Action, Config, Env}

status_limit : ℕ
status_limit = 10

-- `Buffer.from(text)` for one code unit that is not a surrogate: UTF-8.
utf8_unit : ℕ → Text
utf8_unit c =
    if ltb c 0x80
    then c ∷ []
    else if ltb c 0x800
    then (0xC0 + c / 64) ∷ (0x80 + c % 64) ∷ []
    else (0xE0 + c / 4096) ∷ (0x80 + c / 64 % 64) ∷ (0x80 + c % 64) ∷ []

utf8 : Text → Text
unfolding utf8_unit
utf8 [] = []
utf8 (c ∷ s) = utf8_unit c ++ utf8 s

same : Text → Text → Bool
same [] [] = true
same (a ∷ s) (b ∷ t) = a == b && same s t
same _ _ = false

-- `timingSafeEqual` of two buffers; `none` where it throws, since their lengths differ.
timing_safe_equal : Text → Text → Option Bool
unfolding same
timing_safe_equal a b = if length a == length b then some (same a b) else none

-- `bytesEq`
bytes_eq : Text → Text → Option Bool
unfolding timing_safe_equal utf8
bytes_eq a b = if length a == length b then timing_safe_equal (utf8 a) (utf8 b) else some false

-- What follows a prefix, if a text starts with it.
after_prefix : Text → Text → Option Text
after_prefix [] s = some s
after_prefix (c ∷ p) [] = none
after_prefix (c ∷ p) (d ∷ s) = if c == d then after_prefix p s else none

abbrev bearer : Text
bearer = b'B' ∷ b'e' ∷ b'a' ∷ b'r' ∷ b'e' ∷ b'r' ∷ b' ' ∷ []

pub data AuthResult : Type 0 where
  hidden unauthorized broken passes : AuthResult

or_empty : Option Text → Text
or_empty none = []
or_empty (some s) = s

of_comparison : Option Bool → AuthResult
of_comparison none = broken
of_comparison (some true) = passes
of_comparison (some false) = unauthorized

of_presented : Text → Option Text → AuthResult
unfolding of_comparison bytes_eq
of_presented expected none = unauthorized
of_presented expected (some presented) = of_comparison (bytes_eq presented expected)

-- `authMiddleware`, from ADMIN_API_TOKEN and the header; an empty token disables the API.
unfoldable pub authorize : Option Text → Option Text → AuthResult
unfolding of_presented after_prefix or_empty
authorize none header = hidden
authorize (some []) header = hidden
authorize (some (c ∷ token)) header =
    of_presented (c ∷ token) (after_prefix bearer (or_empty header))

pub data AdminResponse : Type 0 where
  not_found not_authorized invalid_request is_disabled trigger_failed : AdminResponse
  triggered : AdminResponse
  rewards_triggered : Option (ℕ × RewardCycle) → AdminResponse
  buyback_cycles : Collection BuybackCycle → AdminResponse
  reward_cycles : Collection RewardCycle → AdminResponse

-- The ten newest documents, the newest first.
newest : {D : Type 0} → Collection D → Collection D
newest c = first status_limit (reverse c)

head : {D : Type 0} → Collection D → Option (ℕ × D)
head [] = none
head (x ∷ c) = some x

module _ (config : Config) (env : Env) where
  open env use {fate}

  pass : AuthResult → Action AdminResponse → Action AdminResponse
  pass hidden handler = pure not_found
  pass unauthorized handler = pure not_authorized
  pass broken handler = throw Error.transient
  pass passes handler = handler

  guarded : Option Text → Action AdminResponse → Action AdminResponse
  guarded header handler = pass (authorize config.admin_api_token header) handler

  -- `POST /buyback/trigger`, where the body is empty or not; the model does not tell apart the
  -- responses with and without a cycle.
  buyback_trigger : Bool → Action AdminResponse
  buyback_trigger is_empty_body =
      if is_empty_body
      then if config.buyback_enabled
        then catch (run_one_cycle config env >> pure triggered) (λ _. pure trigger_failed)
        else pure is_disabled
      else pure invalid_request

  after_tick : Bool → Action AdminResponse
  after_tick false = pure trigger_failed
  after_tick true = query fate (λ s. rewards_triggered (head (reverse s.rewards)))

  -- `POST /masternode-rewards/trigger`
  rewards_trigger : Bool → Action AdminResponse
  rewards_trigger is_empty_body =
      if is_empty_body
      then if config.masternode_rewards_enabled
        then catch (run_masternode_reward_tick config env >> pure true) (λ _. pure false)
          >>= after_tick
        else pure is_disabled
      else pure invalid_request

  pub post_buyback_trigger : Option Text → Bool → Action AdminResponse
  post_buyback_trigger header is_empty_body = guarded header (buyback_trigger is_empty_body)

  pub post_rewards_trigger : Option Text → Bool → Action AdminResponse
  post_rewards_trigger header is_empty_body = guarded header (rewards_trigger is_empty_body)

  pub get_buyback_status : Option Text → Action AdminResponse
  get_buyback_status header = guarded header (query fate (λ s. buyback_cycles (newest s.buybacks)))

  pub get_rewards_status : Option Text → Action AdminResponse
  get_rewards_status header = guarded header (query fate (λ s. reward_cycles (newest s.rewards)))
