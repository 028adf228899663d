-- ===== src/Tests/Orders.antt =====
-- Orders of a new manager.
use cryptobot_algo.Base.{ℕ, ◌≡◌, ◌≢◌, refl, none, some, false, [], ◌∷◌, arith}
use cryptobot_algo.Base.Int.{pos}
use cryptobot_algo.Base.Maps.{contains}
use cryptobot_algo.Ids.{get_unique_id, issue, return_id_to_pool}
use cryptobot_algo.Orders.{buy, sell, limit, btcusdt}
use cryptobot_algo.Orders.Storage
use cryptobot_algo.Orders.Storage.{Storage}
use cryptobot_algo.Orders.Manager.{
  Manager, Placement, new_manager, placed_order, place_order_auto_id, place_request, remove,
  update_status,
}
use cryptobot_algo.Orders.Manager.Live.{Live, place_order_auto_id-stored}
use cryptobot_algo.Orders.Manager.Changes.{to_state, cancelled, changes, remove-place_order_auto_id}
use cryptobot_algo.Orders.Manager.Reissue.{placing, ending, steps, steps-place_order_auto_id}
use cryptobot_algo.Orders.Binance
use cryptobot_algo.Orders.Binance.{order_status_invalid, category_enum, order_status_enum}
use cryptobot_algo.Orders.Binance.Events

abbrev BinanceManager : Type 0
BinanceManager = Manager Binance.Category Binance.OrderStatus

abbrev bid : Placement Binance.Category
bid = record {
  category = Binance.Category.spot;
  side = buy;
  order_mode = limit;
  trading_pair = btcusdt;
  price = pos 100;
  qty = pos 7;
}

abbrev begin : BinanceManager
begin = new_manager

abbrev one : BinanceManager
one = place_order_auto_id bid begin

one_live : Live 1 one
one_live = Live.placing Live.start bid

place_order_auto_id-stored_example :
    let m' : BinanceManager = place_order_auto_id bid one in
    (id : ℕ) × (Storage.get id one.storage ≡ none)
    × (Storage.get id m'.storage ≡ some (placed_order bid id))
    × ((j : ℕ) → j ≢ id → Storage.get j m'.storage ≡ Storage.get j one.storage)
    × (m'.sent ≡ place_request id bid ∷ one.sent)
place_order_auto_id-stored_example = place_order_auto_id-stored one_live (omega arith) bid

remove-place_order_auto_id_example :
    (remove (get_unique_id one.uids).0 (
      changes
        (get_unique_id one.uids).0
        (to_state (pos 100) (pos 3) ∷ cancelled ∷ [])
        (place_order_auto_id bid one))).storage
    ≡ one.storage
remove-place_order_auto_id_example =
    remove-place_order_auto_id one_live (omega arith) bid
      (to_state (pos 100) (pos 3) ∷ cancelled ∷ [])

abbrev two : BinanceManager
two = remove 0 (place_order_auto_id bid one)

steps-place_order_auto_id_example :
    let m' : BinanceManager = steps (placing bid ∷ ending 0 ∷ []) (remove 1 two) in
    (place_order_auto_id bid m').sent ≡ place_request 1 bid ∷ m'.sent
unfolding remove place_order_auto_id get_unique_id issue return_id_to_pool
steps-place_order_auto_id_example =
    steps-place_order_auto_id two 1 (placing bid ∷ ending 0 ∷ []) bid refl

abbrev filled : Binance.OrderEvent
filled = record {
  kind = Binance.Kind.filled;
  order_id = 0;
  price = pos 100;
  order_qty = pos 7;
  cum_exec_qty = pos 7;
}

abbrev accepted : Binance.OrderEvent
accepted = record filled { kind = Binance.Kind.new }

zero_stored : Storage.get 0 one.storage ≢ none
unfolding place_order_auto_id Storage.add Storage.insert_unique Storage.get get_unique_id issue
zero_stored e = cc

on_response-Live_example :
    let m' = Binance.on_response filled one in
    Live 1 m'
    × ((j : ℕ) → 0 ≢ j → Storage.get j m'.storage ≡ Storage.get j one.storage)
    × (contains (Storage.get 0 m'.storage) ≡ false)
on_response-Live_example =
    Binance.Events.on_response-Live filled one_live (omega arith) (λ _. zero_stored)

-- A storage with one order.
abbrev ask : BinanceManager
ask = place_order_auto_id (record bid { side = sell }) one

-- The queries find the orders of a category, of a side, of a mode and of a status.
queries :
    (Storage.get_by_category Binance.Category.spot ask.storage ≡ ask.storage)
    × (Storage.get_by_category Binance.Category.futures ask.storage ≡ [])
    × (Storage.get_by_category_side Binance.Category.spot buy ask.storage ≡ one.storage)
    × (Storage.get_by_category_mode Binance.Category.spot limit ask.storage ≡ ask.storage)
    × (Storage.get_by_status Binance.OrderStatus.new (Binance.on_response accepted one).storage
        ≡ (Binance.on_response accepted one).storage)
unfolding Storage.get_by_category Storage.get_by_category_side Storage.get_by_category_mode
    Storage.get_by_status place_order_auto_id Storage.add Storage.insert_unique Storage.get
    get_unique_id issue Binance.on_response Binance.accept update_status Storage.update_status
queries = (refl, refl, refl, refl, refl)
