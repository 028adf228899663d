-- ===== src/Orders/Bybit.antt =====
-- aoe/bybit/order_event/order_event.h, the enumerations of aoe/bybit/enums/enums.h that orders have,
-- and order_watcher.h.
pub mod Events
pub mod Classes
use cryptobot_algo.Base.{ℕ}
use cryptobot_algo.Base.Int.{ℤ}
use cryptobot_algo.Orders.{Enum, nothing}
use cryptobot_algo.Orders.Manager.{Manager, Mutator, Invalid, manager_mutator}

pub data Category : Type 0 where
  invalid spot linear inverse : Category

instance abbrev pub category_enum : Enum Category
category_enum = record {
  value = λ c. elim c [
    | Category.invalid ↦ 0
    | Category.spot ↦ 1
    | Category.linear ↦ 2
    | Category.inverse ↦ 3
  ];
}

pub data OrderStatus : Type 0 where
  invalid new partially_filled untriggered rejected partially_filled_canceled filled cancelled
        triggered deactivated :
      OrderStatus

instance abbrev pub order_status_enum : Enum OrderStatus
order_status_enum = record {
  value = λ s. elim s [
    | OrderStatus.invalid ↦ 0
    | OrderStatus.new ↦ 1
    | OrderStatus.partially_filled ↦ 2
    | OrderStatus.untriggered ↦ 3
    | OrderStatus.rejected ↦ 4
    | OrderStatus.partially_filled_canceled ↦ 5
    | OrderStatus.filled ↦ 6
    | OrderStatus.cancelled ↦ 7
    | OrderStatus.triggered ↦ 8
    | OrderStatus.deactivated ↦ 9
  ];
}

instance abbrev pub order_status_invalid : Invalid OrderStatus
order_status_invalid = record { invalid = OrderStatus.invalid }

-- The classes of events.
pub data Kind : Type 0 where
  unknown new partially_filled untriggered rejected partially_filled_cancelled filled cancelled
        triggered deactivated :
      Kind

pub record OrderEvent : Type 0 where
  pub kind : Kind
  pub order_id : ℕ
  pub price : ℤ
  pub leaves_qty : ℤ

module _ {M : Type 0} where
  -- `Accept` of each class.
  unfoldable pub accept_kind : Mutator M OrderStatus → Kind → OrderEvent → M → M
  accept_kind mutator Kind.unknown e m = m
  accept_kind mutator Kind.new e m = mutator.update_status e.order_id OrderStatus.new nothing m
  accept_kind mutator Kind.partially_filled e m =
      let m1 = mutator.update_status e.order_id OrderStatus.partially_filled nothing m in
      mutator.update_state e.order_id e.price e.leaves_qty m1
  accept_kind mutator Kind.untriggered e m =
      mutator.update_status e.order_id OrderStatus.untriggered nothing m
  accept_kind mutator Kind.rejected e m = mutator.remove e.order_id m
  accept_kind mutator Kind.partially_filled_cancelled e m = mutator.remove e.order_id m
  accept_kind mutator Kind.filled e m = mutator.remove e.order_id m
  accept_kind mutator Kind.cancelled e m = mutator.remove e.order_id m
  accept_kind mutator Kind.triggered e m = mutator.remove e.order_id m
  accept_kind mutator Kind.deactivated e m = mutator.remove e.order_id m

  unfoldable pub accept : Mutator M OrderStatus → OrderEvent → M → M
  unfolding accept_kind
  accept mutator e = accept_kind mutator e.kind e

unfoldable pub on_response :
    OrderEvent → Manager Category OrderStatus → Manager Category OrderStatus
unfolding accept
on_response e m = accept manager_mutator e m

-- The watcher hands every event to the manager.
abbrev pub on_event : OrderEvent → Manager Category OrderStatus → Manager Category OrderStatus
on_event = on_response
