-- ===== src/Tests/Requests.antt =====
-- Requests over an object that is a function from keys.
use Prim.Native.String.{String}
use cryptobot_algo.Base.{ℕ, ◌≡◌, refl, Option, none, some, if◌then◌else◌}
use cryptobot_algo.Base.Int.{ℤ}
use cryptobot_algo.Base.Texts.{eqb_str}
use cryptobot_algo.Converters.{pair_index, convert_to_big, convert_from_big}
use cryptobot_algo.Converters.RoundTrips.{convert_to_big-from_big}
use cryptobot_algo.Binance.EnumPrinter.{
  TimeInForce, category_to_string, side_to_string, order_mode_to_string, time_in_force_to_string,
}
use cryptobot_algo.Orders.Binance.{Category}
use cryptobot_algo.Orders.{Side, OrderMode, ethusdt, solbnb}
use cryptobot_algo.Requests.Json.{JsonApi}
use cryptobot_algo.Requests.{Request, binance_printers, new_spot_buy_limit, order_json, accept}
use cryptobot_algo.Requests.Sent.{accept-reads_back}

abbrev functions : JsonApi
functions = record {
  Json = String → Option String;
  null = λ key. none;
  put = λ key text j other. if eqb_str key other then some text else j other;
  at = λ key j. j key;
  at_null = λ key. refl;
  at-put = λ key other text j. refl;
}

abbrev number : ℤ → String
number z = "1.5"

abbrev id_text : ℕ → String
id_text n = "42"

abbrev order : Request Category Side OrderMode TimeInForce
order = record (new_spot_buy_limit functions number id_text binance_printers ethusdt 42) {
  time_in_force = TimeInForce.gtc;
}

abbrev order_texts : String → Option String
order_texts =
    order_json functions number id_text binance_printers order "spot" "ETHUSDT" "BUY" "LIMIT"

accept-reads_back_example :
    (order_texts "category" ≡ some "spot")
    × (order_texts "side" ≡ some "BUY")
    × (order_texts "orderType" ≡ some "LIMIT")
    × (order_texts "qty" ≡ some "1.5")
    × (order_texts "price" ≡ some "1.5")
    × (order_texts "orderLinkId" ≡ some "42")
    × (order_texts "timeInForce" ≡ some "GTC")
    × (name : String) × (order_texts "symbol" ≡ some name)
    × (convert_from_big name ≡ some ethusdt)
unfolding accept convert_to_big category_to_string side_to_string order_mode_to_string
    time_in_force_to_string
accept-reads_back_example =
    accept-reads_back functions number id_text binance_printers order order_texts refl

convert_to_big-from_big_example : convert_to_big solbnb ≡ none
unfolding pair_index convert_from_big
convert_to_big-from_big_example = convert_to_big-from_big "SOLBNB" solbnb refl
