-- ===== src/Parsers/Orders.antt =====
-- parser/json/ws/order_response/order_event_parser.h of both exchanges. The trading pair of an event is
-- only checked, since no order event reads it.
use Prim.Native.String.{String}
use cryptobot_algo.Base.{ℕ, Option, none, some, List, [], ◌∷◌}
use cryptobot_algo.Base.Int.{ℤ}
use cryptobot_algo.Base.Texts.{eqb_str, find}
use cryptobot_algo.Converters.{convert_from_big}
use cryptobot_algo.Parsers.Doc.{DocApi, ◌>>=◌, ◌>>◌, guard}
use cryptobot_algo.Orders.Binance as Binance
use cryptobot_algo.Orders.Bybit as Bybit

-- `factory_map_` of the Binance parser, after RegisterFromConfig.
abbrev pub binance_factory : List (String × Binance.Kind)
binance_factory =
    ("NEW", Binance.Kind.new)
    ∷ ("PENDING_NEW", Binance.Kind.pending_new)
    ∷ ("PARTIALLY_FILLED", Binance.Kind.partially_filled)
    ∷ ("FILLED", Binance.Kind.filled)
    ∷ ("CANCELED", Binance.Kind.cancelled)
    ∷ ("PENDING_CANCEL", Binance.Kind.pending_cancel)
    ∷ ("REJECTED", Binance.Kind.rejected)
    ∷ ("EXPIRED", Binance.Kind.expired)
    ∷ ("EXPIRED_IN_MATCH", Binance.Kind.expired_in_match)
    ∷ []

-- What RegisterFromConfig of the Bybit parser would register.
abbrev pub bybit_registered : List (String × Bybit.Kind)
bybit_registered =
    ("New", Bybit.Kind.new)
    ∷ ("PartiallyFilled", Bybit.Kind.partially_filled)
    ∷ ("Untriggered", Bybit.Kind.untriggered)
    ∷ ("Rejected", Bybit.Kind.rejected)
    ∷ ("PartiallyFilledCanceled", Bybit.Kind.partially_filled_cancelled)
    ∷ ("Filled", Bybit.Kind.filled)
    ∷ ("Cancelled", Bybit.Kind.cancelled)
    ∷ ("Triggered", Bybit.Kind.triggered)
    ∷ ("Deactivated", Bybit.Kind.deactivated)
    ∷ []

-- The map that the constructor of the Bybit parser leaves: it does not call RegisterFromConfig.
abbrev pub bybit_factory : List (String × Bybit.Kind)
bybit_factory = []

abbrev pub kind_of : {Kind : Type 0} → List (String × Kind) → String → Option Kind
kind_of factory text = find (λ k. eqb_str k text) factory

module _ (api : DocApi) where
  open api use {Doc, get_string, get_uint64_in_string, get_double_in_string, get_array}

  unfoldable pub parse_binance_order : Doc → Option Binance.OrderEvent
  unfolding convert_from_big
  parse_binance_order doc = do
    event_type ← get_string "e" doc
    guard (eqb_str event_type "executionReport")
    symbol ← get_string "s" doc
    order_id ← get_uint64_in_string "c" doc
    order_status ← get_string "X" doc
    order_qty ← get_double_in_string "q" doc
    cum_exec_qty ← get_double_in_string "z" doc
    price ← get_double_in_string "p" doc
    kind ← kind_of binance_factory order_status
    trading_pair ← convert_from_big symbol
    some (record {
      kind = kind;
      order_id = order_id;
      price = price;
      order_qty = order_qty;
      cum_exec_qty = cum_exec_qty;
    })

  -- The fields of an item, with the text of its status and its symbol.
  unfoldable pub read_item : Doc → Option (String × String × ℤ × ℤ × ℕ)
  read_item item = do
    price ← get_double_in_string "price" item
    leaves_qty ← get_double_in_string "leavesQty" item
    symbol ← get_string "symbol" item
    order_id ← get_uint64_in_string "orderLinkId" item
    order_status ← get_string "orderStatus" item
    some (order_status, symbol, price, leaves_qty, order_id)

  -- An item of a known status is the answer, whatever comes after it.
  unfoldable pub make_order :
      Option Bybit.Kind
      → String × String × ℤ × ℤ × ℕ
      → Option Bybit.OrderEvent
      → Option Bybit.OrderEvent
  make_order none item rest = rest
  make_order (some kind) (status, symbol, price, leaves_qty, order_id) rest =
      convert_from_big symbol >>= λ trading_pair.
      some (record { kind = kind; order_id = order_id; price = price; leaves_qty = leaves_qty })

  unfoldable pub parse_items : List (String × Bybit.Kind) → List Doc → Option Bybit.OrderEvent
  unfolding read_item make_order
  parse_items factory [] = none
  parse_items factory (item ∷ items) =
      let rest = parse_items factory items in
      read_item item >>= λ fields. make_order (kind_of factory fields.0) fields rest

  unfoldable pub parse_bybit_order : Doc → Option Bybit.OrderEvent
  unfolding parse_items
  parse_bybit_order doc = get_array "data" doc >>= parse_items bybit_factory
