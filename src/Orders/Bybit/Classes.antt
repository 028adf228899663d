-- ===== src/Orders/Bybit/Classes.antt =====
-- aoe/bybit/order_storage/order_storage.h, aoe/bybit/order_manager/order_manager.h and
-- order_manager_default.h: the classes of Bybit, which have the text of those of Binance, at the
-- categories and statuses of Bybit. The default manager hands every call to the manager that it owns.
use cryptobot_algo.Base.{ℕ, Option}
use cryptobot_algo.Base.Int.{ℤ}
use cryptobot_algo.Orders.{Side, OrderMode, PendingAction, Order}
use cryptobot_algo.Orders.Storage
use cryptobot_algo.Orders.Storage.{Storage}
use cryptobot_algo.Orders.Manager
use cryptobot_algo.Orders.Manager.{Manager, Placement}
use cryptobot_algo.Orders.Bybit.{
  Category, category_enum, OrderStatus, order_status_enum, order_status_invalid,
}

abbrev pub BybitOrder : Type 0
BybitOrder = Order Category OrderStatus

abbrev pub BybitStorage : Type 0
BybitStorage = Storage Category OrderStatus

abbrev pub BybitManager : Type 0
BybitManager = Manager Category OrderStatus

abbrev pub bybit_get_by_category : Category → BybitStorage → BybitStorage
bybit_get_by_category = Storage.get_by_category

abbrev pub bybit_get_by_category_side : Category → Side → BybitStorage → BybitStorage
bybit_get_by_category_side = Storage.get_by_category_side

abbrev pub bybit_get_by_status : OrderStatus → BybitStorage → BybitStorage
bybit_get_by_status = Storage.get_by_status

abbrev pub bybit_get_by_category_mode : Category → OrderMode → BybitStorage → BybitStorage
bybit_get_by_category_mode = Storage.get_by_category_mode

abbrev pub bybit_get : ℕ → BybitStorage → Option BybitOrder
bybit_get = Storage.get

abbrev pub bybit_add : BybitOrder → BybitStorage → BybitStorage
bybit_add = Storage.add

abbrev pub bybit_emplace : BybitOrder → BybitStorage → BybitStorage
bybit_emplace = Storage.emplace

abbrev pub bybit_update_status : ℕ → OrderStatus → PendingAction → BybitStorage → BybitStorage
bybit_update_status = Storage.update_status

abbrev pub bybit_remove : ℕ → BybitStorage → BybitStorage
bybit_remove = Storage.remove

abbrev pub bybit_update_state : ℕ → ℤ → ℤ → BybitStorage → BybitStorage
bybit_update_state = Storage.update_state

abbrev pub bybit_place_order_manual_id : Placement Category → ℕ → BybitManager → BybitManager
bybit_place_order_manual_id = Manager.place_order_manual_id

abbrev pub bybit_place_order_auto_id : Placement Category → BybitManager → BybitManager
bybit_place_order_auto_id = Manager.place_order_auto_id

abbrev pub bybit_cancel_order : ℕ → BybitManager → BybitManager
bybit_cancel_order = Manager.cancel_order

abbrev pub bybit_amend_order : ℕ → BybitManager → BybitManager
bybit_amend_order = Manager.amend_order
