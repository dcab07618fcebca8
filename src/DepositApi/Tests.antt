-- ===== src/DepositApi/Tests.antt =====
-- The deposit API at concrete inputs.
use faircoin_bridge.DepositApi.{
  create_deposit, get_deposit_status, insert_deposit, insert_if_new, intent_created, is_awaiting,
  is_outstanding, is_unpaid, max_awaiting_per_ip, new_deposit, post_intent, respond_created,
  sanitize_deposit, too_many_outstanding, unless_too_many,
}
use faircoin_bridge.DepositApi.Intents.{Answered, Ended, post_intent_opens}
use faircoin_bridge.Effects.{
  Error, World, act, done, modify, pure, query, skip, threw, throw, ◌>>=◌, ◌>>◌,
}
use faircoin_bridge.Effects.Hoare.{Post}
use faircoin_bridge.Hd.{allocate_next_deposit_address}
use faircoin_bridge.Models.Deposit.{DepositStatus}
use faircoin_bridge.Prelude.{length, refl, some, ◌≡◌}
use faircoin_bridge.Prelude.Collection.{find_all, find_by_id, find_one, next_id}
use faircoin_bridge.Samples.{calm_env, config, empty_store}
use faircoin_bridge.Store.{Store}

world : World Store
world = record { clock = 0; store = empty_store }

post_intent_opens_example :
    Post
      (Answered config calm_env 5 (some 9) world.store.deposits 0)
      (Ended config calm_env 5 (some 9) world.store.deposits 0)
      (post_intent config calm_env 5 (some 9) world)
unfolding world
post_intent_opens_example = post_intent_opens config calm_env 5 (some 9) world

-- What one line of a test names to let a request run.
runs : Unit {0}
unfolding world post_intent unless_too_many too_many_outstanding is_outstanding is_awaiting
    max_awaiting_per_ip create_deposit insert_deposit insert_if_new new_deposit is_unpaid
    respond_created allocate_next_deposit_address get_deposit_status sanitize_deposit find_all
    find_one find_by_id next_id query act modify skip pure throw ◌>>=◌ ◌>>◌
runs = tt

first_intent :
    (post_intent config calm_env 5 (some 9) world).0
    ≡ done (
        intent_created (record {
          id = 0;
          base_address = 5;
          fair_address = 300;
          hd_index = 0;
          status = DepositStatus.awaiting;
        }))
unfolding runs
first_intent = refl

-- A second intent, of another client, fails while the first is open, and uses up an index.
second_intent_conflicts :
    let w = (post_intent config calm_env 5 (some 9) world).1 in
    let (r, w') = post_intent config calm_env 6 (some 8) w in
    (r ≡ threw Error.duplicate_key)
    × (length w'.store.deposits ≡ 1)
    × (w'.store.fair_deposit_next_index ≡ 2)
unfolding runs
second_intent_conflicts = (refl, refl, refl)
