-- ===== src/Tests/Subscriptions.antt =====
-- Subscriptions to a pair with a name, and to one without.
use Prim.Native.String.{String}
use cryptobot_algo.Base.{◌≡◌, refl, List, [], ◌∷◌}
use cryptobot_algo.Orders.{btcusdt, solbnb}
use cryptobot_algo.Converters.{convert_to_big, convert_to_small, pair_index}
use cryptobot_algo.Bybit.EnumPrinter.{LinearDepth, linear_depth_to_string}
use cryptobot_algo.Subscriptions.{
  subscribe_topic, subscribe_linear_book, book_subscription, subscribe_trade, trade_subscription,
}

-- A printer that answers its pattern.
abbrev pattern_only : String → List String → String
pattern_only pattern_text _ = pattern_text

named :
    subscribe_linear_book pattern_only LinearDepth.k50 btcusdt
    ≡ subscribe_topic "orderbook.{}.{}" ∷ []
unfolding subscribe_linear_book book_subscription convert_to_big pair_index linear_depth_to_string
named = refl

unnamed : subscribe_trade pattern_only solbnb ≡ []
unfolding subscribe_trade trade_subscription convert_to_small pair_index
unnamed = refl
