-- ===== src/Orders/Binance.antt =====
-- aoe/binance/order_event/order_event.h, the enumerations of aoe/binance/enums/enums.h that orders
-- have, leaves_qty_calculator.h and order_watcher.h.
pub mod Events
use cryptobot_algo.Base.{ℕ}
use cryptobot_algo.Base.Int.{ℤ, ◌-ℤ◌}
use cryptobot_algo.Orders.{Enum, nothing}
use cryptobot_algo.Orders.Manager.{Manager, Mutator, Invalid, manager_mutator}

pub data Category : Type 0 where
  invalid spot futures : Category

instance abbrev pub category_enum : Enum Category
category_enum = record {
  value = λ c. elim c [ Category.invalid ↦ 0 | Category.spot ↦ 1 | Category.futures ↦ 2 ];
}

pub data OrderStatus : Type 0 where
  invalid new pending_new partially_filled filled cancelled pending_cancel rejected expired
        expired_in_match :
      OrderStatus

instance abbrev pub order_status_enum : Enum OrderStatus
order_status_enum = record {
  value = λ s. elim s [
    | OrderStatus.invalid ↦ 0
    | OrderStatus.new ↦ 1
    | OrderStatus.pending_new ↦ 2
    | OrderStatus.partially_filled ↦ 3
    | OrderStatus.filled ↦ 4
    | OrderStatus.cancelled ↦ 5
    | OrderStatus.pending_cancel ↦ 6
    | OrderStatus.rejected ↦ 7
    | OrderStatus.expired ↦ 8
    | OrderStatus.expired_in_match ↦ 9
  ];
}

instance abbrev pub order_status_invalid : Invalid OrderStatus
order_status_invalid = record { invalid = OrderStatus.invalid }

-- The classes of events.
pub data Kind : Type 0 where
  unknown new pending_new partially_filled filled cancelled pending_cancel rejected expired
        expired_in_match :
      Kind

pub record OrderEvent : Type 0 where
  pub kind : Kind
  pub order_id : ℕ
  pub price : ℤ
  pub order_qty : ℤ
  pub cum_exec_qty : ℤ

unfoldable pub leaves_qty : OrderEvent → ℤ
leaves_qty e = e.order_qty -ℤ e.cum_exec_qty

module _ {M : Type 0} where
  -- `Accept` of each class.
  unfoldable pub accept_kind : Mutator M OrderStatus → Kind → OrderEvent → M → M
  unfolding leaves_qty
  accept_kind mutator Kind.unknown e m = m
  accept_kind mutator Kind.new e m = mutator.update_status e.order_id OrderStatus.new nothing m
  accept_kind mutator Kind.pending_new e m =
      mutator.update_status e.order_id OrderStatus.pending_new nothing m
  accept_kind mutator Kind.partially_filled e m =
      let m1 = mutator.update_status e.order_id OrderStatus.partially_filled nothing m in
      mutator.update_state e.order_id e.price (leaves_qty e) m1
  accept_kind mutator Kind.filled e m = mutator.remove e.order_id m
  accept_kind mutator Kind.cancelled e m = mutator.remove e.order_id m
  accept_kind mutator Kind.pending_cancel e m = m
  accept_kind mutator Kind.rejected e m = mutator.remove e.order_id m
  accept_kind mutator Kind.expired e m = mutator.remove e.order_id m
  accept_kind mutator Kind.expired_in_match e m = mutator.remove e.order_id m

  unfoldable pub accept : Mutator M OrderStatus → OrderEvent → M → M
  unfolding accept_kind
  accept mutator e = accept_kind mutator e.kind e

unfoldable pub on_response :
    OrderEvent → Manager Category OrderStatus → Manager Category OrderStatus
unfolding accept
on_response e m = accept manager_mutator e m

-- The watcher hands every event to the manager.
abbrev pub on_event : OrderEvent → Manager Category OrderStatus → Manager Category OrderStatus
on_event = on_response
