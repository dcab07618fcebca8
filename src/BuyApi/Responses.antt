-- ===== src/BuyApi/Responses.antt =====
-- The bodies of the answers of services/bridge/src/api/buy.ts. The model has no creation and update
-- times of an order; a time is a number, and an ISO text in the source.
use Prim.Native.String.{String}
use mathlib.Core.Option
use faircoin_bridge.BuyApi.{PaymentQuote}
use faircoin_bridge.Decimal.{Text}
use faircoin_bridge.Effects.{query}
use faircoin_bridge.Models.BuyOrder.{BuyOrder, BuyOrderStatus, FeeBreakdown, PaymentCurrency}
use faircoin_bridge.Prelude.{Bool, Option, ℕ}
use faircoin_bridge.Prelude.Collection.{find_by_id}
use faircoin_bridge.Quotes.{format_payment_amount}
use faircoin_bridge.Store.{Action, Env}

pub record QuoteJson : Type 0 where
  pub id : ℕ
  pub fair_amount_sats : ℕ
  pub fair_destination_address : ℕ
  pub payment_currency : PaymentCurrency
  pub payment_address : Option ℕ
  pub payment_amount : ℕ
  pub payment_amount_formatted : Text
  pub payment_decimals : ℕ
  pub payment_symbol : String
  pub payment_network_label : String
  pub card_payment_url : Option ℕ
  pub payment_expires_at : ℕ
  pub estimated_delivery_time : String
  pub fee_breakdown : FeeBreakdown

-- `serializeQuote`
unfoldable pub serialize_quote : ℕ → BuyOrder → PaymentQuote → QuoteJson
serialize_quote id o quote = record {
  id = id;
  fair_amount_sats = o.fair_amount_sats;
  fair_destination_address = o.fair_destination_address;
  payment_currency = o.payment_currency;
  payment_address = o.payment_address;
  payment_amount = o.payment_amount;
  payment_amount_formatted = format_payment_amount o.payment_amount quote.payment_decimals;
  payment_decimals = quote.payment_decimals;
  payment_symbol = quote.symbol;
  payment_network_label = quote.network_label;
  card_payment_url = o.card_payment_url;
  payment_expires_at = o.payment_expires_at;
  estimated_delivery_time = "60-180 seconds after payment confirms";
  fee_breakdown = o.fee_breakdown;
}

pub record StatusJson : Type 0 where
  pub id : ℕ
  pub status : BuyOrderStatus
  pub fair_amount_sats : ℕ
  pub fair_destination_address : ℕ
  pub payment_currency : PaymentCurrency
  pub payment_address : Option ℕ
  pub payment_amount : ℕ
  pub payment_expires_at : ℕ
  pub payment_detected_tx_hash : Option ℕ
  pub swap_tx_hash : Option ℕ
  pub burn_tx_hash : Option ℕ
  pub fair_delivery_tx_id : Option ℕ
  pub has_error : Bool

-- `serializeStatus`
unfoldable pub serialize_status : ℕ → BuyOrder → StatusJson
serialize_status id o = record {
  id = id;
  status = o.status;
  fair_amount_sats = o.fair_amount_sats;
  fair_destination_address = o.fair_destination_address;
  payment_currency = o.payment_currency;
  payment_address = o.payment_address;
  payment_amount = o.payment_amount;
  payment_expires_at = o.payment_expires_at;
  payment_detected_tx_hash = o.payment_detected_tx_hash;
  swap_tx_hash = o.swap_tx_hash;
  burn_tx_hash = o.burn_tx_hash;
  fair_delivery_tx_id = o.release_fair_tx_id;
  has_error = o.has_error;
}

-- `GET /status/:id`: `none` is the response 404.
unfoldable pub get_status : Env → ℕ → Action (Option StatusJson)
unfolding serialize_status
get_status env id =
    query env.fate (λ s. Option.map (λ o. serialize_status id o) (find_by_id id s.orders))
