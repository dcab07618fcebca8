-- ===== src/BuyApi.antt =====
-- services/bridge/src/api/buy.ts: the quote that opens a buy order, and the status of an order. A
-- response is a value; a call that throws ends in the error handler's 500. The shape of an address
-- and of an id is checked on texts that are numbers here, and the rate limit of express-rate-limit
-- stands before the handler.
pub mod Responses
pub mod Created
pub mod Requests
mod Tests
use Prim.Native.String.{String}
use faircoin_bridge.Decimal.{Text}
use faircoin_bridge.Effects.{Error, act, ask, catch, look, pure, query, throw, ◌>>=◌}
use faircoin_bridge.Hd.{DerivedKey, allocate_next_buy_payment_address}
use faircoin_bridge.Models.BuyOrder.{BuyOrder, BuyOrderStatus, PaymentCurrency}
use faircoin_bridge.Prelude.{
  Bool, Option, [], equals, false, if◌then◌else◌, leb, length, ltb, none, some, true, ℕ, ◌&&◌, ◌*◌,
  ◌++◌, ◌+◌, ◌∷◌,
}
use faircoin_bridge.Prelude.Collection.{Collection, find_all, find_one, next_id}
use faircoin_bridge.Quotes.{
  add_fee, apply_buffer, fair_amount_to_sats, fair_sats_to_wfair_wei, is_fair_amount,
}
use faircoin_bridge.Store.{Action, Config, Env, Store}
use faircoin_bridge.Uniswap.{quote_usdc_in_for_exact_wfair_out}

max_awaiting_per_ip : ℕ
max_awaiting_per_ip = 20

-- What `validate(QuoteBody)` leaves of a request.
pub record QuoteBody : Type 0 where
  pub fair_amount : Text
  pub payment_currency : PaymentCurrency
  pub fair_destination_address : ℕ
  pub user_identifier : Option ℕ

pub record PaymentQuote : Type 0 where
  pub payment_amount : ℕ
  pub payment_decimals : ℕ
  pub symbol : String
  pub network_label : String

-- The codes of `BuyQuoteError`; its status is 503 wherever it is thrown.
pub data BuyQuoteError : Type 0 where
  currency_unavailable card_not_configured : BuyQuoteError

-- How `buildPaymentQuote` ends for the handler.
pub data QuoteResult : Type 0 where
  quoted : PaymentQuote → QuoteResult
  buy_quote_error : BuyQuoteError → QuoteResult
  other_error : QuoteResult

pub data QuoteResponse : Type 0 where
  invalid_request too_many_outstanding_quotes below_minimum above_maximum : QuoteResponse
  invalid_fair_destination : QuoteResponse
  quote_refused : BuyQuoteError → QuoteResponse
  pool_quote_failed address_allocation_failed : QuoteResponse
  created : ℕ → BuyOrder → PaymentQuote → QuoteResponse

-- The HTTP status of a response.
status_code : QuoteResponse → ℕ
status_code invalid_request = 400
status_code too_many_outstanding_quotes = 429
status_code below_minimum = 400
status_code above_maximum = 400
status_code invalid_fair_destination = 400
status_code (quote_refused _) = 503
status_code pool_quote_failed = 502
status_code address_allocation_failed = 503
status_code (created _ _ _) = 201

is_awaiting : BuyOrderStatus → Bool
is_awaiting BuyOrderStatus.awaiting_payment = true
is_awaiting _ = false

-- An order of this client that awaits its payment.
unfoldable pub is_outstanding : ℕ → BuyOrder → Bool
unfolding is_awaiting
is_outstanding ip o = equals ip o.client_ip && is_awaiting o.status

unfoldable pub outstanding : ℕ → Collection BuyOrder → ℕ
outstanding ip c = length (find_all (is_outstanding ip) c)

has_payment_address : Option ℕ → BuyOrder → Bool
has_payment_address none o = false
has_payment_address (some address) o = equals address o.payment_address

insert_if_new : Option (ℕ × BuyOrder) → BuyOrder → Store → Option ℕ × Store
insert_if_new (some _) o s = (none, s)
insert_if_new none o s =
    (some (next_id s.orders), record s { orders = s.orders ++ (next_id s.orders, o) ∷ [] })

-- `BuyOrder.create` under the unique index on `paymentAddress`.
insert_order : BuyOrder → Store → Option ℕ × Store
insert_order o s = insert_if_new (find_one (has_payment_address o.payment_address) s.orders) o s

module _ (config : Config) (env : Env) where
  open env use {fate}

  -- `isCardSupported`
  is_card_supported : Bool
  is_card_supported = config.has_card_key

  with_buffer_and_fee : ℕ → PaymentQuote
  with_buffer_and_fee usdc = record {
    payment_amount =
        add_fee (apply_buffer usdc config.buy_slippage_buffer_bps) config.buy_bridge_fee_bps;
    payment_decimals = 6;
    symbol = "USDC";
    network_label = "Base";
  }

  -- `quoteUsdcPayment`
  quote_usdc_payment : ℕ → Action QuoteResult
  quote_usdc_payment wfair_wei = quote_usdc_in_for_exact_wfair_out config env wfair_wei >>= λ usdc.
      pure (quoted (with_buffer_and_fee usdc))

  -- `buildPaymentQuote`, with `quoteEthBasePayment`
  build_payment_quote : PaymentCurrency → ℕ → Action QuoteResult
  build_payment_quote PaymentCurrency.usdc_base wei = quote_usdc_payment wei
  build_payment_quote PaymentCurrency.eth_base wei = pure (buy_quote_error currency_unavailable)
  build_payment_quote PaymentCurrency.eth_mainnet wei = pure (buy_quote_error currency_unavailable)
  build_payment_quote PaymentCurrency.btc wei = pure (buy_quote_error currency_unavailable)
  build_payment_quote PaymentCurrency.card wei = pure (buy_quote_error card_not_configured)

  new_order : QuoteBody → Option ℕ → ℕ → PaymentQuote → DerivedKey → ℕ → BuyOrder
  new_order body client_ip fair_sats quote key expires_at = record {
    fair_amount_sats = fair_sats;
    fair_destination_address = body.fair_destination_address;
    payment_currency = body.payment_currency;
    payment_address = some key.address;
    payment_amount = quote.payment_amount;
    card_payment_url = none;
    payment_hd_index = some key.index;
    payment_expires_at = expires_at;
    status = BuyOrderStatus.awaiting_payment;
    payment_detected_tx_hash = none;
    swap_tx_hash = none;
    swap_wfair_out = none;
    burn_tx_hash = none;
    release_fair_tx_id = none;
    fee_breakdown = record {
      uniswap_bps = 0;
      bridge_bps = config.buy_bridge_fee_bps;
      slippage_buffer_bps = config.buy_slippage_buffer_bps;
    };
    user_identifier = body.user_identifier;
    client_ip = client_ip;
    has_error = false;
  }

  respond_created : BuyOrder → PaymentQuote → Option ℕ → Action QuoteResponse
  respond_created o quote none = throw Error.duplicate_key
  respond_created o quote (some id) = pure (created id o quote)

  create_order : BuyOrder → PaymentQuote → Action QuoteResponse
  create_order o quote = act fate (λ _ s. insert_order o s) >>= respond_created o quote

  with_address : QuoteBody → Option ℕ → ℕ → PaymentQuote → Option DerivedKey → Action QuoteResponse
  with_address body client_ip fair_sats quote none = pure address_allocation_failed
  with_address body client_ip fair_sats quote (some key) =
      look (λ n. env.now n + config.buy_quote_ttl_seconds * 1_000) >>= λ expires_at.
      create_order (new_order body client_ip fair_sats quote key expires_at) quote

  allocated_or_none : Action (Option DerivedKey)
  allocated_or_none =
      catch (allocate_next_buy_payment_address config env >>= λ key. pure (some key))
        (λ _. pure none)

  -- A card has no address; with a key or without one, the handler refuses it.
  address_for : PaymentCurrency → QuoteBody → Option ℕ → ℕ → PaymentQuote → Action QuoteResponse
  address_for PaymentCurrency.card body client_ip fair_sats quote =
      if is_card_supported
      then pure (quote_refused card_not_configured)
      else pure (quote_refused card_not_configured)
  address_for _ body client_ip fair_sats quote =
      allocated_or_none >>= with_address body client_ip fair_sats quote

  after_quote : QuoteBody → Option ℕ → ℕ → QuoteResult → Action QuoteResponse
  after_quote body client_ip fair_sats (quoted quote) =
      address_for body.payment_currency body client_ip fair_sats quote
  after_quote body client_ip fair_sats (buy_quote_error e) = pure (quote_refused e)
  after_quote body client_ip fair_sats other_error = pure pool_quote_failed

  with_destination : QuoteBody → Option ℕ → ℕ → Bool → Action QuoteResponse
  with_destination body client_ip fair_sats valid =
      if valid
      then catch (build_payment_quote body.payment_currency (fair_sats_to_wfair_wei fair_sats))
          (λ _. pure other_error)
        >>= after_quote body client_ip fair_sats
      else pure invalid_fair_destination

  -- `fairValidateAddress(…).catch(() => null)`
  validated : ℕ → Action Bool
  validated address = catch (ask fate (λ n. env.is_valid_address n address)) (λ _. pure false)

  within_limits : QuoteBody → Option ℕ → ℕ → Action QuoteResponse
  within_limits body client_ip fair_sats =
      if ltb fair_sats config.buy_min_sats
      then pure below_minimum
      else if ltb config.buy_max_sats fair_sats
      then pure above_maximum
      else validated body.fair_destination_address >>= with_destination body client_ip fair_sats

  too_many_outstanding : Option ℕ → Action Bool
  too_many_outstanding none = pure false
  too_many_outstanding (some ip) =
      query fate (λ s. leb max_awaiting_per_ip (outstanding ip s.orders))

  unless_too_many : QuoteBody → Option ℕ → Bool → Action QuoteResponse
  unless_too_many body client_ip too_many =
      if too_many
      then pure too_many_outstanding_quotes
      else within_limits body client_ip (fair_amount_to_sats body.fair_amount)

  -- `POST /quote`, from the request's body and `req.ip`
  pub post_quote : QuoteBody → Option ℕ → Action QuoteResponse
  post_quote body client_ip =
      if is_fair_amount body.fair_amount
      then too_many_outstanding client_ip >>= unless_too_many body client_ip
      else pure invalid_request
