-- ===== src/Subscriptions/Named.antt =====
-- Which pairs can be subscribed to.
use Prim.Native.String.{String}
use cryptobot_algo.Base.{
  ◌≡◌, refl, ap, ◌∙◌, Bool, true, false, Option, none, some, List, ltb, length, if◌then◌else◌,
}
use cryptobot_algo.Base.Maps.{contains}
use cryptobot_algo.Orders.{TradingPair, btcusdt}
use cryptobot_algo.Converters.{pair_index, convert_to_big, convert_to_small}
use cryptobot_algo.Converters.RoundTrips.{convert_to_big-contains}
use cryptobot_algo.Bybit.EnumPrinter.{
  SpotDepth, LinearDepth, spot_depth_to_string, linear_depth_to_string,
}
use cryptobot_algo.Subscriptions.{
  book_subscription, subscribe_spot_book, subscribe_linear_book, trade_subscription,
  subscribe_trade,
}

convert_to_small-contains : (p : TradingPair) → contains (convert_to_small p) ≡ ltb (pair_index p) 3
unfolding convert_to_small pair_index
convert_to_small-contains btcusdt = refl
convert_to_small-contains _ = refl

spot_depth-prints : (d : SpotDepth) → (spot_depth_to_string d).0 ≡ true
unfolding spot_depth_to_string
spot_depth-prints SpotDepth.k1 = refl
spot_depth-prints SpotDepth.k50 = refl
spot_depth-prints SpotDepth.k200 = refl

linear_depth-prints : (d : LinearDepth) → (linear_depth_to_string d).0 ≡ true
unfolding linear_depth_to_string
linear_depth-prints LinearDepth.k1 = refl
linear_depth-prints LinearDepth.k50 = refl
linear_depth-prints LinearDepth.k200 = refl
linear_depth-prints LinearDepth.k500 = refl

module _ (format : String → List String → String) where
  length-book_subscription :
      (o : Option String) (d : Bool × String)
      → d.0 ≡ true
      → length (book_subscription format o d) ≡ (if contains o then 1 else 0)
  unfolding book_subscription
  length-book_subscription none d e = refl
  length-book_subscription (some pair) (true, depth) e = refl
  length-book_subscription (some pair) (false, depth) e = absurd (cc)

  -- One message is given to the session where the pair is one of the first three of the enumeration,
  -- and none for any other pair.
  pub length-subscribe_spot_book :
      (d : SpotDepth) (p : TradingPair)
      → length (subscribe_spot_book format d p) ≡ (if ltb (pair_index p) 3 then 1 else 0)
  unfolding subscribe_spot_book
  length-subscribe_spot_book d p =
      length-book_subscription (convert_to_big p) (spot_depth_to_string d) (spot_depth-prints d)
      ∙ ap (λ b. if b then 1 else 0) (convert_to_big-contains p)

  pub length-subscribe_linear_book :
      (d : LinearDepth) (p : TradingPair)
      → length (subscribe_linear_book format d p) ≡ (if ltb (pair_index p) 3 then 1 else 0)
  unfolding subscribe_linear_book
  length-subscribe_linear_book d p =
      length-book_subscription (convert_to_big p) (linear_depth_to_string d) (linear_depth-prints d)
      ∙ ap (λ b. if b then 1 else 0) (convert_to_big-contains p)

  length-trade_subscription :
      (o : Option String) → length (trade_subscription format o) ≡ (if contains o then 1 else 0)
  unfolding trade_subscription
  length-trade_subscription none = refl
  length-trade_subscription (some pair) = refl

  -- The same of the trades of Binance, whose names are small.
  pub length-subscribe_trade :
      (p : TradingPair)
      → length (subscribe_trade format p) ≡ (if ltb (pair_index p) 3 then 1 else 0)
  unfolding subscribe_trade
  length-subscribe_trade p =
      length-trade_subscription (convert_to_small p)
      ∙ ap (λ b. if b then 1 else 0) (convert_to_small-contains p)
