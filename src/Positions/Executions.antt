-- ===== src/Positions/Executions.antt =====
-- aoe/bybit/execution_event/types.h and aoe/binance/execution_event/types.h: the executions of orders,
-- which change the storage of positions, and the watcher of aoe/bybit/execution_watcher. The futures
-- of Binance are treated like the linear contracts of Bybit. An execution's key stands for its
-- exchange and its trading pair; its fee, value and order id are left out, which no storage of positions
-- is told.
pub mod Quantities
use cryptobot_algo.Base.{ℕ, if◌then◌else◌}
use cryptobot_algo.Base.Int.{ℤ}
use cryptobot_algo.Positions.Calculators.{zero_ℤ, neg_ℤ}
use cryptobot_algo.Positions.Storage.{PositionStorage, add_position, remove_position}

-- The classes of executions.
pub data ExecutionKind : Type 0 where
  unknown spot_sell spot_buy linear_sell linear_buy : ExecutionKind

pub record ExecutionEvent : Type 0 where
  pub kind : ExecutionKind
  pub key : ℕ
  pub exec_price : ℤ
  pub exec_qty : ℤ

-- `ExecQty` of each class.
abbrev pub signed_qty : ExecutionKind → ℤ → ℤ
signed_qty unknown qty = zero_ℤ
signed_qty spot_sell qty = qty
signed_qty spot_buy qty = qty
signed_qty linear_sell qty = neg_ℤ qty
signed_qty linear_buy qty = neg_ℤ qty

module _ (quot : ℤ → ℤ → ℤ) where
  -- `Accept` of each class.
  unfoldable pub accept_of : ExecutionKind → ExecutionEvent → PositionStorage → PositionStorage
  accept_of unknown e s = s
  accept_of spot_sell e s =
      (remove_position quot e.key e.exec_price (signed_qty spot_sell e.exec_qty) s).1
  accept_of spot_buy e s = add_position quot e.key e.exec_price (signed_qty spot_buy e.exec_qty) s
  accept_of linear_sell e s =
      add_position quot e.key e.exec_price (signed_qty linear_sell e.exec_qty) s
  accept_of linear_buy e s =
      (remove_position quot e.key e.exec_price (signed_qty linear_buy e.exec_qty) s).1

  unfoldable pub accept_execution : ExecutionEvent → PositionStorage → PositionStorage
  unfolding accept_of
  accept_execution e s = accept_of e.kind e s

  -- The watcher hands every execution to the storage.
  abbrev pub watch_execution : ExecutionEvent → PositionStorage → PositionStorage
  watch_execution = accept_execution

  -- The events of Binance have the same text.
  abbrev pub binance_accept_execution : ExecutionEvent → PositionStorage → PositionStorage
  binance_accept_execution = accept_execution
