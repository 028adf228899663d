-- ===== src/Requests.antt =====
-- aoe/binance/request and aoe/bybit/request: the requests to place and to cancel an order, as JSON. The
-- two exchanges have one text over their enumerations and printers, which are the record `Printers`;
-- nlohmann::json is the record `JsonApi`. `none` is the answer `{false, {}}`. What std::to_string makes
-- of a number is a parameter. The route of an order is not a part of the JSON.
pub mod Json
pub mod Sent
use Prim.Native.String.{String}
use cryptobot_algo.Base.{ℕ, Bool, true, false, Option, none, some, if◌then◌else◌}
use cryptobot_algo.Base.Int.{ℤ, pos}
use cryptobot_algo.Converters.{convert_to_big}
use cryptobot_algo.Orders.{TradingPair, Side, OrderMode}
use cryptobot_algo.Requests.Json.{JsonApi}
use cryptobot_algo.Binance.EnumPrinter as Binance
use cryptobot_algo.Bybit.EnumPrinter as Bybit
use cryptobot_algo.Orders.Binance as BinanceOrders
use cryptobot_algo.Orders.Bybit as BybitOrders

-- The enumerations of an exchange with their printers, and the values that the constructors of the
-- requests set.
pub record Printers (Category Side OrderMode TimeInForce : Type 0) : Type 0 where
  pub category_to_string : Category → Bool × String
  pub side_to_string : Side → Bool × String
  pub order_mode_to_string : OrderMode → Bool × String
  pub time_in_force_to_string : TimeInForce → Bool × String
  pub spot : Category
  pub buy : Side
  pub limit : OrderMode
  pub no_time_in_force : TimeInForce

abbrev pub binance_printers : Printers BinanceOrders.Category Side OrderMode Binance.TimeInForce
binance_printers = record {
  category_to_string = Binance.category_to_string;
  side_to_string = Binance.side_to_string;
  order_mode_to_string = Binance.order_mode_to_string;
  time_in_force_to_string = Binance.time_in_force_to_string;
  spot = BinanceOrders.Category.spot;
  buy = Side.buy;
  limit = OrderMode.limit;
  no_time_in_force = Binance.TimeInForce.invalid;
}

abbrev pub bybit_printers : Printers BybitOrders.Category Side OrderMode Bybit.TimeInForce
bybit_printers = record {
  category_to_string = Bybit.category_to_string;
  side_to_string = Bybit.side_to_string;
  order_mode_to_string = Bybit.order_mode_to_string;
  time_in_force_to_string = Bybit.time_in_force_to_string;
  spot = BybitOrders.Category.spot;
  buy = Side.buy;
  limit = OrderMode.limit;
  no_time_in_force = Bybit.TimeInForce.invalid;
}

-- A request to place an order.
pub record Request (Category Side OrderMode TimeInForce : Type 0) : Type 0 where
  pub trading_pair : TradingPair
  pub category : Category
  pub price : ℤ
  pub qty : ℤ
  pub order_id : ℕ
  pub order_side : Side
  pub time_in_force : TimeInForce
  pub order_mode : OrderMode

-- A request to cancel one.
pub record CancelRequest (Category : Type 0) : Type 0 where
  pub cancel_pair : TradingPair
  pub cancel_category : Category
  pub cancel_id : ℕ

-- A text with its status is used, or the whole request fails.
abbrev pub with_status : {A : Type 0} → Bool × String → (String → Option A) → Option A
with_status (true, text) f = f text
with_status (false, text) f = none

abbrev pub with_text : {A : Type 0} → Option String → (String → Option A) → Option A
with_text none f = none
with_text (some text) f = f text

module _ (api : JsonApi) (number : ℤ → String) (id_text : ℕ → String) where
  open api use {Json, null, put}

  abbrev pub put_valid : String → Bool × String → Json → Json
  put_valid key (true, text) j = put key text j
  put_valid key (false, text) j = j

  module _ {Category Side OrderMode TimeInForce : Type 0}
      (printers : Printers Category Side OrderMode TimeInForce) where
    open printers use {
      category_to_string, side_to_string, order_mode_to_string, time_in_force_to_string,
    }

    -- The constructor of SpotBuyLimit; the pair and the id are set later.
    abbrev pub new_spot_buy_limit : TradingPair → ℕ → Request Category Side OrderMode TimeInForce
    new_spot_buy_limit pair id = record {
      trading_pair = pair;
      category = printers.spot;
      price = pos 0;
      qty = pos 0;
      order_id = id;
      order_side = printers.buy;
      time_in_force = printers.no_time_in_force;
      order_mode = printers.limit;
    }

    -- The JSON of an order whose texts are there.
    abbrev pub order_json :
        Request Category Side OrderMode TimeInForce → String → String → String → String → Json
    order_json r category symbol side mode =
        let j = put "side" side (put "symbol" symbol (put "category" category null)) in
        let j' = put "price" (number r.price) (put "qty" (number r.qty) (put "orderType" mode j)) in
        put "orderLinkId" (id_text r.order_id)
          (put_valid "timeInForce" (time_in_force_to_string r.time_in_force) j')

    -- `Accept` of SpotBuyLimit.
    unfoldable pub accept : Request Category Side OrderMode TimeInForce → Option Json
    accept r = with_status (category_to_string r.category) λ category.
        with_text (convert_to_big r.trading_pair) λ symbol.
          with_status (side_to_string r.order_side) λ side.
            with_status (order_mode_to_string r.order_mode)
              λ mode. some (order_json r category symbol side mode)

    -- `Accept` of the request to cancel an order of the spot market.
    unfoldable pub accept_cancel : CancelRequest Category → Option Json
    accept_cancel r = with_status (category_to_string r.cancel_category) λ category.
        with_text (convert_to_big r.cancel_pair) λ symbol. some (
          put "orderLinkId" (id_text r.cancel_id)
            (put "symbol" symbol (put "category" category null)))
