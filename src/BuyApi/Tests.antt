-- ===== src/BuyApi/Tests.antt =====
-- The buy API at concrete inputs: a request for 12.5 FAIR, which the sample quoter prices at 12.5 USDC.
use faircoin_bridge.BuyApi.{
  QuoteBody, QuoteResponse, address_for, after_quote, allocated_or_none, build_payment_quote,
  create_order, created, has_payment_address, insert_if_new, insert_order, is_outstanding,
  max_awaiting_per_ip, new_order, outstanding, post_quote, quote_usdc_payment, respond_created,
  status_code, too_many_outstanding, unless_too_many, validated, with_address, with_buffer_and_fee,
  with_destination, within_limits,
}
use faircoin_bridge.BuyApi.Created.{Answered, Ended, post_quote_opens}
use faircoin_bridge.BuyApi.Requests.{IsOrderly, serve, serve-IsOrderly}
use faircoin_bridge.BuyApi.Responses.{serialize_quote}
use faircoin_bridge.Decimal.{
  Text, is_digit, pad_start, repeat, split, strip_zeros, to_bigint, to_string, value,
}
use faircoin_bridge.Effects.{
  Outcome, World, act, ask, catch, done, look, modify, pure, query, skip, throw, ◌>>=◌, ◌>>◌,
}
use faircoin_bridge.Effects.Hoare.{Post}
use faircoin_bridge.Hd.{allocate_next_buy_payment_address}
use faircoin_bridge.Models.BuyOrder.{PaymentCurrency}
use faircoin_bridge.Prelude.{List, Option, [], arith, inl, inr, none, refl, some, ℕ, ◌∷◌, ◌≡◌}
use faircoin_bridge.Prelude.Collection.{find_all, find_one, next_id}
use faircoin_bridge.Quotes.{
  add_fee, apply_buffer, fair_amount_to_sats, fair_sats_to_wfair_wei, format_payment_amount,
  is_fair_amount,
}
use faircoin_bridge.Samples.{calm_env, config, empty_store}
use faircoin_bridge.Store.{Store}
use faircoin_bridge.Uniswap.{quote_usdc_in_for_exact_wfair_out}
use faircoin_bridge.Uniswap.Pool.{PoolIsChecked}

abbrev body : QuoteBody
body = record {
  fair_amount = b'1' ∷ b'2' ∷ b'.' ∷ b'5' ∷ [];
  payment_currency = PaymentCurrency.usdc_base;
  fair_destination_address = 6;
  user_identifier = none;
}

abbrev bitcoin_body : QuoteBody
bitcoin_body = record body { payment_currency = PaymentCurrency.btc }

world : World Store
world = record { clock = 0; store = empty_store }

-- The pool of the sample environment, which the process has read before.
warm_world : World Store
warm_world = record {
  clock = 0;
  store = record empty_store {
    cached_pool_meta =
        some (record { token0 = 81; token1 = 82; fee = 3_000; wfair = 82; usdc = 81 });
  };
}

warm : PoolIsChecked config warm_world.store
unfolding warm_world
warm = (refl, refl, inl refl, inr refl)

post_quote_opens_example :
    Post
      (Answered config calm_env body (some 9) warm_world.store.orders 0)
      (Ended config calm_env body (some 9) warm_world.store.orders 0)
      (post_quote config calm_env body (some 9) warm_world)
unfolding warm_world
post_quote_opens_example = post_quote_opens config calm_env body (some 9) warm_world warm

empty-IsOrderly : IsOrderly warm_world.store
unfolding warm_world outstanding find_all
empty-IsOrderly = record { capped = λ ip. omega arith; below = tt; distinct = tt }

abbrev requests : List (QuoteBody × Option ℕ)
requests = (body, some 9) ∷ (bitcoin_body, some 9) ∷ (body, none) ∷ []

serve-IsOrderly_example :
    IsOrderly (serve config calm_env requests warm_world).store
    × PoolIsChecked config (serve config calm_env requests warm_world).store
serve-IsOrderly_example = serve-IsOrderly config calm_env requests warm_world empty-IsOrderly warm

-- What one line of a test names to let a request run.
runs : Unit {0}
unfolding world post_quote unless_too_many too_many_outstanding outstanding is_outstanding
    max_awaiting_per_ip within_limits validated with_destination build_payment_quote
    quote_usdc_payment with_buffer_and_fee after_quote address_for allocated_or_none with_address
    create_order respond_created insert_order insert_if_new has_payment_address new_order
    status_code fair_amount_to_sats is_fair_amount fair_sats_to_wfair_wei to_bigint value split
    repeat is_digit add_fee apply_buffer quote_usdc_in_for_exact_wfair_out
    allocate_next_buy_payment_address serialize_quote format_payment_amount to_string pad_start
    strip_zeros serve find_all find_one next_id query ask modify act look skip pure throw catch
    ◌>>=◌ ◌>>◌
runs = tt

answer : QuoteResponse → ℕ × Text
answer (created id o quote) = (201, (serialize_quote id o quote).payment_amount_formatted)
answer r = (status_code r, [])

answer_of : Outcome QuoteResponse → ℕ × Text
answer_of (done r) = answer r
answer_of _ = (500, [])

-- 12.5 USDC, with 2% and then 1% on top, is shown as 12.8775.
shown_price :
    answer_of (post_quote config calm_env body (some 9) world).0
    ≡ (201, b'1' ∷ b'2' ∷ b'.' ∷ b'8' ∷ b'7' ∷ b'7' ∷ b'5' ∷ [])
unfolding runs answer answer_of
shown_price = refl

bitcoin_is_refused :
    answer_of (post_quote config calm_env bitcoin_body (some 9) world).0 ≡ (503, [])
unfolding runs answer answer_of
bitcoin_is_refused = refl

one_order_of_the_client : outstanding 9 (serve config calm_env requests world).store.orders ≡ 1
unfolding runs
one_order_of_the_client = refl
