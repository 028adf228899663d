-- ===== src/Subscriptions.antt =====
-- aoe/binance/subscription_builder and aoe/bybit/subscription_builder: the messages that Subscribe gives
-- to a session, as calls of AsyncWrite. `format` is that of {fmt}: a pattern and what is put into it. A
-- braced text that is assigned to a member of a JSON object makes an array of one text.
pub mod Named
use Prim.Native.String.{String}
use cryptobot_algo.Base.{Bool, true, false, Option, none, some, List, [], ◌∷◌}
use cryptobot_algo.Orders.{TradingPair}
use cryptobot_algo.Converters.{convert_to_big, convert_to_small}
use cryptobot_algo.Binance.EnumPrinter.{
  SpotDiffUpdateSpeed, FuturesDiffUpdateSpeed, spot_speed_to_string, futures_speed_to_string,
}
use cryptobot_algo.Bybit.EnumPrinter as Bybit
use cryptobot_algo.Session.WebSocket.{Event, async_write}

pub data Value : Type 0 where
  null : Value
  text : String → Value
  array : String → Value

abbrev pub Message : Type 0
Message = List (String × Value)

-- The subscriptions to executions and to orders of Binance are this one.
unfoldable pub subscribe_user_data : List (Event Message)
subscribe_user_data =
    async_write (("id", null) ∷ ("method", array "userDataStream.subscribe") ∷ []) ∷ []

abbrev pub subscribe_topic : String → Event Message
subscribe_topic topic = async_write (("op", text "subscribe") ∷ ("args", array topic) ∷ [])

abbrev pub subscribe_params : String → Event Message
subscribe_params params =
    async_write (("id", null) ∷ ("method", text "SUBSCRIBE") ∷ ("params", array params) ∷ [])

unfoldable pub subscribe_execution : List (Event Message)
subscribe_execution = subscribe_topic "execution" ∷ []

unfoldable pub subscribe_order : List (Event Message)
subscribe_order = subscribe_topic "order" ∷ []

module _ (format : String → List String → String) where
  -- Subscribe of a diff, once the pair and the speed are printed.
  unfoldable pub diff_subscription : Option String → Bool × String → List (Event Message)
  diff_subscription (some pair) (true, speed) =
      subscribe_params (format "{}@depth@{}" (pair ∷ speed ∷ [])) ∷ []
  diff_subscription _ _ = []

  unfoldable pub subscribe_spot_diff : SpotDiffUpdateSpeed → TradingPair → List (Event Message)
  unfolding diff_subscription
  subscribe_spot_diff speed p = diff_subscription (convert_to_small p) (spot_speed_to_string speed)

  unfoldable pub subscribe_futures_diff :
      FuturesDiffUpdateSpeed → TradingPair → List (Event Message)
  unfolding diff_subscription
  subscribe_futures_diff speed p =
      diff_subscription (convert_to_small p) (futures_speed_to_string speed)

  unfoldable pub trade_subscription : Option String → List (Event Message)
  trade_subscription none = []
  trade_subscription (some pair) = subscribe_params (format "{}@trade" (pair ∷ [])) ∷ []

  unfoldable pub subscribe_trade : TradingPair → List (Event Message)
  unfolding trade_subscription
  subscribe_trade p = trade_subscription (convert_to_small p)

  -- Likewise for an order book of Bybit.
  unfoldable pub book_subscription : Option String → Bool × String → List (Event Message)
  book_subscription (some pair) (true, depth) =
      subscribe_topic (format "orderbook.{}.{}" (depth ∷ pair ∷ [])) ∷ []
  book_subscription _ _ = []

  unfoldable pub subscribe_spot_book : Bybit.SpotDepth → TradingPair → List (Event Message)
  unfolding book_subscription
  subscribe_spot_book depth p =
      book_subscription (convert_to_big p) (Bybit.spot_depth_to_string depth)

  unfoldable pub subscribe_linear_book : Bybit.LinearDepth → TradingPair → List (Event Message)
  unfolding book_subscription
  subscribe_linear_book depth p =
      book_subscription (convert_to_big p) (Bybit.linear_depth_to_string depth)

  unfoldable pub tickers_subscription : Option String → List (Event Message)
  tickers_subscription none = []
  tickers_subscription (some pair) = subscribe_topic (format "tickers.{}" (pair ∷ [])) ∷ []

  unfoldable pub subscribe_tickers : TradingPair → List (Event Message)
  unfolding tickers_subscription
  subscribe_tickers p = tickers_subscription (convert_to_big p)
