-- ===== src/Converters/RoundTrips.antt =====
-- Which pairs are read back from their names and their tickers.
use Prim.Native.String.{String}
use cryptobot_algo.Base.{◌≡◌, refl, ap, Bool, false, Option, none, some, ltb, ◌==◌, if◌then◌else◌}
use cryptobot_algo.Base.Maps.{contains}
use cryptobot_algo.Base.Texts.{eqb_str, eqb_str-eq, find-All}
use cryptobot_algo.Orders.{TradingPair, btcusdt, ethusdt, ethbtc}
use cryptobot_algo.Converters.{
  pair_index, convert_to_big, convert_from_big, pairs_by_name, trading_pair_to_tickers,
  tickers_to_trading_pair,
}

-- The pair that a name stands for is converted to that name only if it is one of the first three pairs of
-- the enumeration; for any other pair the conversion fails.
pub convert_to_big-from_big :
    (name : String) (p : TradingPair)
    → convert_from_big name ≡ some p
    → convert_to_big p ≡ (if ltb (pair_index p) 3 then some name else none)
unfolding convert_from_big convert_to_big pair_index
convert_to_big-from_big name p h =
    find-All (λ q. convert_to_big q ≡ (if ltb (pair_index q) 3 then some name else none))
      (λ k. eqb_str k name) pairs_by_name p
      (
        λ e. ap some (eqb_str-eq _ name e),
        (
          λ e. ap some (eqb_str-eq _ name e),
          (
            λ e. ap some (eqb_str-eq _ name e),
            (
              λ e. refl,
              (λ e. refl, (λ e. refl, (λ e. refl, (λ e. refl, (λ e. refl, (λ e. refl, tt)))))),
            ),
          ),
        ),
      )
      h

-- A pair that is converted to a name is the one that the name stands for.
pub convert_from_big-to_big :
    (p : TradingPair) (name : String)
    → convert_to_big p ≡ some name
    → convert_from_big name ≡ some p
unfolding convert_to_big pair_index convert_from_big
convert_from_big-to_big btcusdt name h = let e : "BTCUSDT" ≡ name = cc in rw (← e) refl
convert_from_big-to_big ethusdt name h = let e : "ETHUSDT" ≡ name = cc in rw (← e) refl
convert_from_big-to_big ethbtc name h = let e : "ETHBTC" ≡ name = cc in rw (← e) refl
convert_from_big-to_big _ name h = absurd (cc)

-- The pairs that have a name.
pub convert_to_big-contains : (p : TradingPair) → contains (convert_to_big p) ≡ ltb (pair_index p) 3
unfolding convert_to_big pair_index
convert_to_big-contains btcusdt = refl
convert_to_big-contains _ = refl

-- The pair of the tickers that a pair is converted to.
pub back_from_tickers : TradingPair → Option TradingPair
back_from_tickers p = elim (trading_pair_to_tickers p) [
  | none ↦ none
  | some (base, quote) ↦ tickers_to_trading_pair base quote
]

abbrev pub is_pair : TradingPair → Option TradingPair → Bool
is_pair p none = false
is_pair p (some q) = pair_index q == pair_index p

-- Of all pairs just the first three of the enumeration are converted to tickers that are converted back
-- to them.
pub trading_pair_to_tickers-back :
    (p : TradingPair) → is_pair p (back_from_tickers p) ≡ ltb (pair_index p) 3
unfolding back_from_tickers trading_pair_to_tickers tickers_to_trading_pair pair_index
trading_pair_to_tickers-back btcusdt = refl
trading_pair_to_tickers-back _ = refl
