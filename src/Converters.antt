-- ===== src/Converters.antt =====
-- aos/converters: trading pairs, their names and their tickers.
pub mod RoundTrips
use Prim.Native.String.{String}
use cryptobot_algo.Base.{
  ℕ, ◌+◌, ◌*◌, Bool, true, false, not, ◌&&◌, Option, none, some, List, [], ◌∷◌, ltb, ◌==◌,
  if◌then◌else◌,
}
use cryptobot_algo.Orders.{
  TradingPair, btcusdt, ethusdt, ethbtc, btceth, bnbusdt, bnbeth, ethbnb, solusdt, solbnb, xrpusdt,
  adausdt, adaxrp,
}
use cryptobot_algo.Base.Arrays.{get_elem?}
use cryptobot_algo.Base.Texts.{eqb_str, find}

-- The value of the enumeration, which is also its hash.
unfoldable pub pair_index : TradingPair → ℕ
pair_index btcusdt = 0
pair_index ethusdt = 1
pair_index ethbtc = 2
pair_index btceth = 3
pair_index bnbusdt = 4
pair_index bnbeth = 5
pair_index ethbnb = 6
pair_index solusdt = 7
pair_index solbnb = 8
pair_index xrpusdt = 9
pair_index adausdt = 10
pair_index adaxrp = 11
pair_index TradingPair.count = 12

-- The array has as many elements as there are pairs; those that are not written are zero.
abbrev big_dictionary : List (TradingPair × String)
big_dictionary =
    (btcusdt, "BTCUSDT")
    ∷ (ethusdt, "ETHUSDT")
    ∷ (ethbtc, "ETHBTC")
    ∷ (bnbusdt, "BNBUSDT")
    ∷ (bnbeth, "BNBETH")
    ∷ (solusdt, "SOLUSDT")
    ∷ (solbnb, "SOLBNB")
    ∷ (xrpusdt, "XRPUSDT")
    ∷ (adausdt, "ADAUSDT")
    ∷ (adaxrp, "ADAXRP")
    ∷ (btcusdt, "")
    ∷ (btcusdt, "")
    ∷ []

abbrev small_dictionary : List (TradingPair × String)
small_dictionary =
    (btcusdt, "btcusdt")
    ∷ (ethusdt, "ethusdt")
    ∷ (ethbtc, "ethbtc")
    ∷ (bnbusdt, "bnbusdt")
    ∷ (bnbeth, "bnbeth")
    ∷ (solusdt, "solusdt")
    ∷ (solbnb, "solbnb")
    ∷ (xrpusdt, "xrpusdt")
    ∷ (adausdt, "adausdt")
    ∷ (adaxrp, "adaxrp")
    ∷ (btcusdt, "")
    ∷ (btcusdt, "")
    ∷ []

-- The entry at the index of the pair, where it is the pair's.
abbrev own_entry : TradingPair → Option (TradingPair × String) → Option String
own_entry p none = none
own_entry p (some (q, name)) = if pair_index q == pair_index p then some name else none

unfoldable pub convert_to_big : TradingPair → Option String
unfolding pair_index
convert_to_big p = own_entry p (get_elem? big_dictionary (pair_index p))

unfoldable pub convert_to_small : TradingPair → Option String
unfolding pair_index
convert_to_small p = own_entry p (get_elem? small_dictionary (pair_index p))

abbrev pub pairs_by_name : List (String × TradingPair)
pairs_by_name =
    ("BTCUSDT", btcusdt)
    ∷ ("ETHUSDT", ethusdt)
    ∷ ("ETHBTC", ethbtc)
    ∷ ("BNBUSDT", bnbusdt)
    ∷ ("BNBETH", bnbeth)
    ∷ ("SOLUSDT", solusdt)
    ∷ ("SOLBNB", solbnb)
    ∷ ("XRPUSDT", xrpusdt)
    ∷ ("ADAUSDT", adausdt)
    ∷ ("ADAXRP", adaxrp)
    ∷ []

unfoldable pub convert_from_big : String → Option TradingPair
convert_from_big name = find (λ k. eqb_str k name) pairs_by_name

pub data Ticker : Type 0 where
  btc eth usdt bnb sol xrp ada count : Ticker

unfoldable pub ticker_index : Ticker → ℕ
ticker_index btc = 0
ticker_index eth = 1
ticker_index usdt = 2
ticker_index bnb = 3
ticker_index sol = 4
ticker_index xrp = 5
ticker_index ada = 6
ticker_index count = 7

abbrev trading_pair_map : List (Ticker × Ticker)
trading_pair_map =
    (btc, usdt)
    ∷ (eth, usdt)
    ∷ (eth, btc)
    ∷ (bnb, usdt)
    ∷ (bnb, eth)
    ∷ (sol, usdt)
    ∷ (sol, bnb)
    ∷ (xrp, usdt)
    ∷ (ada, usdt)
    ∷ (ada, xrp)
    ∷ (btc, btc)
    ∷ (btc, btc)
    ∷ []

unfoldable pub trading_pair_to_tickers : TradingPair → Option (Ticker × Ticker)
unfolding pair_index
trading_pair_to_tickers p = get_elem? trading_pair_map (pair_index p)

unfoldable pub flat_index : Ticker → Ticker → ℕ
unfolding ticker_index
flat_index base quote = ticker_index base * 7 + ticker_index quote

-- The elements that are written; the others hold `count`.
unfoldable pub reverse_map : List (ℕ × TradingPair)
unfolding flat_index
reverse_map =
    (flat_index btc usdt, btcusdt)
    ∷ (flat_index eth usdt, ethusdt)
    ∷ (flat_index eth btc, ethbtc)
    ∷ (flat_index eth bnb, ethbnb)
    ∷ (flat_index btc eth, btceth)
    ∷ (flat_index bnb usdt, bnbusdt)
    ∷ (flat_index bnb eth, bnbeth)
    ∷ (flat_index sol usdt, solusdt)
    ∷ (flat_index sol bnb, solbnb)
    ∷ (flat_index xrp usdt, xrpusdt)
    ∷ (flat_index ada usdt, adausdt)
    ∷ (flat_index ada xrp, adaxrp)
    ∷ []

unfoldable pub tickers_to_trading_pair : Ticker → Ticker → Option TradingPair
unfolding reverse_map flat_index
tickers_to_trading_pair base quote = find (λ i. i == flat_index base quote) reverse_map
