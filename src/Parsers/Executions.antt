-- ===== src/Parsers/Executions.antt =====
-- parser/json/ws/execution_response/execution_event_parser.h of both exchanges, and the listeners of
-- response_queue_listener/json/ws/execution_response. The key of an execution is what `key_of` makes of
-- its trading pair; the fee, the value and the order id are only checked.
use Prim.Native.String.{String}
use cryptobot_algo.Base.{ℕ, Bool, ◌&&◌, Option, none, some, List, [], ◌∷◌}
use cryptobot_algo.Base.Int.{ℤ}
use cryptobot_algo.Base.Texts.{eqb_str, find}
use cryptobot_algo.Orders.{TradingPair}
use cryptobot_algo.Converters.{convert_from_big}
use cryptobot_algo.Parsers.Doc.{DocApi, ◌>>=◌, ◌>>◌, guard}
use cryptobot_algo.Parsers.Orders.{kind_of}
use cryptobot_algo.Positions.Storage.{PositionStorage}
use cryptobot_algo.Positions.Executions.{
  ExecutionKind, spot_sell, spot_buy, linear_sell, linear_buy, ExecutionEvent, watch_execution,
}
use cryptobot_algo.Listener.{Listener, new_listener, Event, run}

abbrev pub spot_factory : List (String × ExecutionKind)
spot_factory = ("BUY", spot_buy) ∷ ("SELL", spot_sell) ∷ []

-- The futures of Binance are treated like the linear contracts of Bybit.
abbrev pub futures_factory : List (String × ExecutionKind)
futures_factory = ("BUY", linear_buy) ∷ ("SELL", linear_sell) ∷ []

-- The keys of Bybit's map are pairs of texts.
abbrev pub bybit_execution_factory : List ((String × String) × ExecutionKind)
bybit_execution_factory =
    (("spot", "Buy"), spot_buy)
    ∷ (("spot", "Sell"), spot_sell)
    ∷ (("linear", "Buy"), linear_buy)
    ∷ (("linear", "Sell"), linear_sell)
    ∷ []

abbrev pub is_key : String → String → String × String → Bool
is_key category side (c, s) = eqb_str c category && eqb_str s side

module _ (api : DocApi) (key_of : TradingPair → ℕ) where
  open api use {Doc, get_string, get_uint64_in_string, get_double_in_string, get_array}

  -- The parser of the spot market, and of the futures market with its map.
  unfoldable pub parse_execution : List (String × ExecutionKind) → Doc → Option ExecutionEvent
  unfolding convert_from_big
  parse_execution factory doc = do
    exec_type ← get_string "x" doc
    guard (eqb_str exec_type "TRADE")
    symbol ← get_string "s" doc
    side ← get_string "S" doc
    fee ← get_double_in_string "n" doc
    exec_price ← get_double_in_string "L" doc
    exec_qty ← get_double_in_string "l" doc
    exec_value ← get_double_in_string "Y" doc
    order_id ← get_uint64_in_string "c" doc
    kind ← kind_of factory side
    pair ← convert_from_big symbol
    some (record { kind = kind; key = key_of pair; exec_price = exec_price; exec_qty = exec_qty })

  abbrev pub parse_futures_execution : Doc → Option ExecutionEvent
  parse_futures_execution = parse_execution futures_factory

  -- The fields of an item of Bybit's array that its event has.
  unfoldable pub read_execution : Doc → Option ((String × String) × String × ℤ × ℤ)
  read_execution item = do
    category ← get_string "category" item
    side ← get_string "side" item
    fee_rate ← get_double_in_string "execFee" item
    exec_price ← get_double_in_string "execPrice" item
    exec_qty ← get_double_in_string "execQty" item
    exec_value ← get_double_in_string "execValue" item
    symbol ← get_string "symbol" item
    order_id ← get_uint64_in_string "orderId" item
    some ((category, side), symbol, exec_price, exec_qty)

  -- An item of a known class is the answer, whatever comes after it.
  abbrev pub make_execution :
      Option ExecutionKind → String → ℤ → ℤ → Option ExecutionEvent → Option ExecutionEvent
  make_execution none symbol price qty rest = rest
  make_execution (some kind) symbol price qty rest = convert_from_big symbol >>= λ pair.
      some (record { kind = kind; key = key_of pair; exec_price = price; exec_qty = qty })

  unfoldable pub parse_executions : List Doc → Option ExecutionEvent
  unfolding read_execution
  parse_executions [] = none
  parse_executions (item ∷ items) =
      let rest = parse_executions items in
      read_execution item >>= λ (key, symbol, price, qty).
      make_execution (find (is_key key.0 key.1) bybit_execution_factory) symbol price qty rest

  unfoldable pub parse_bybit_execution : Doc → Option ExecutionEvent
  unfolding parse_executions
  parse_bybit_execution doc = get_array "data" doc >>= parse_executions

  -- The listener of Bybit's executions, with the watcher of the storage of positions.
  module _ (quot : ℤ → ℤ → ℤ) {Msg : Type 0} (iterate : Msg → Option Doc) where
    abbrev pub execution_responses :
        List (Event Msg) → PositionStorage → Listener Msg PositionStorage
    execution_responses es s =
        run (λ m. iterate m >>= parse_bybit_execution) (watch_execution quot) es (new_listener s)
