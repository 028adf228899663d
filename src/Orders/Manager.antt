-- ===== src/Orders/Manager.antt =====
-- aoe/binance/order_manager/order_manager.h and aoe/bybit/order_manager/order_manager.h, which have
-- the same text, and the wrappers `order_manager_default.h`. The storage and the manager of ids are
-- parts of the state. The calls of the exchange's API are recorded with the fields that the manager
-- sets or reads, newest first.
pub mod Live
pub mod Changes
pub mod Reissue
pub mod Collide
use cryptobot_algo.Base.{ℕ, List, [], ◌∷◌}
use cryptobot_algo.Base.Int.{ℤ}
use cryptobot_algo.Ids.{UidManager, new_uid_manager, get_unique_id, return_id_to_pool}
use cryptobot_algo.Orders.{Side, OrderMode, PendingAction, place, cancel, amend, TradingPair, Order}
use cryptobot_algo.Orders.Storage
use cryptobot_algo.Orders.Storage.{Storage}

-- A request to place an order.
pub record Placement (C : Type 0) : Type 0 where
  pub category : C
  pub side : Side
  pub order_mode : OrderMode
  pub trading_pair : TradingPair
  pub price : ℤ
  pub qty : ℤ

pub data Request (C : Type 0) : Type 0 where
  place_request : ℕ → Placement C → Request C
  cancel_request : ℕ → Request C
  amend_request : ℕ → Request C

pub record Manager (C S : Type 0) : Type 0 where
  pub storage : Storage C S
  pub uids : UidManager
  pub sent : List (Request C)

abbrev pub new_manager : {C S : Type 0} → Manager C S
new_manager = record { storage = []; uids = new_uid_manager; sent = [] }

-- The operations that an event of an order calls.
pub record Mutator (M S : Type 0) : Type 0 where
  pub update_status : ℕ → S → PendingAction → M → M
  pub remove : ℕ → M → M
  pub update_state : ℕ → ℤ → ℤ → M → M

-- `OrderStatus::kInvalid` of the exchange.
pub record Invalid (S : Type 0) : Type 0 where
  pub invalid : S

module _ {C S : Type 0} where
  abbrev pub send : Request C → Manager C S → Manager C S
  send request m = record m { sent = request ∷ m.sent }

  unfoldable pub update_status : ℕ → S → PendingAction → Manager C S → Manager C S
  update_status id status action m = record m {
    storage = Storage.update_status id status action m.storage;
  }

  unfoldable pub remove : ℕ → Manager C S → Manager C S
  remove id m = record m {
    storage = Storage.remove id m.storage;
    uids = return_id_to_pool id m.uids;
  }

  unfoldable pub update_state : ℕ → ℤ → ℤ → Manager C S → Manager C S
  update_state id price qty m = record m { storage = Storage.update_state id price qty m.storage }

  unfoldable pub add : Order C S → Manager C S → Manager C S
  add o m = record m { storage = Storage.add o m.storage }

  abbrev pub manager_mutator : Mutator (Manager C S) S
  manager_mutator = record {
    update_status = update_status;
    remove = remove;
    update_state = update_state;
  }

module _ {C S : Type 0} ⦃i : Invalid S⦄ where
  abbrev pub placed_order : Placement C → ℕ → Order C S
  placed_order r id = record {
    category = r.category;
    side = r.side;
    order_mode = r.order_mode;
    order_status = i.invalid;
    pending_action = place;
    order_id = id;
    trading_pair = r.trading_pair;
    price = r.price;
    qty = r.qty;
  }

  unfoldable pub place_order_manual_id : Placement C → ℕ → Manager C S → Manager C S
  unfolding add
  place_order_manual_id r id m = send (place_request id r) (add (placed_order r id) m)

  unfoldable pub place_order_auto_id : Placement C → Manager C S → Manager C S
  unfolding add
  place_order_auto_id r m =
      let (id, uids) = get_unique_id m.uids in
      send (place_request id r) (add (placed_order r id) (record m { uids = uids }))

  unfoldable pub cancel_order : ℕ → Manager C S → Manager C S
  unfolding update_status
  cancel_order id m = send (cancel_request id) (update_status id i.invalid cancel m)

  unfoldable pub amend_order : ℕ → Manager C S → Manager C S
  unfolding update_status
  amend_order id m = send (amend_request id) (update_status id i.invalid amend m)
