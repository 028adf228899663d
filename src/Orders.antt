-- ===== src/Orders.antt =====
-- aoe/binance/order/order.h and aoe/bybit/order/order.h, with the enumerations that both exchanges
-- share. The categories and the statuses differ between the exchanges, so they are parameters here:
-- `C` and `S`. Prices and quantities are integers in a unit that both exchanges accept.
pub mod Storage
pub mod Manager
pub mod Binance
pub mod Bybit
pub mod Multi
use cryptobot_algo.Base.{ℕ}
use cryptobot_algo.Base.Int.{ℤ}

-- An enumeration with the values of its constants, which the ordered indices compare.
pub record Enum (A : Type 0) : Type 0 where
  pub value : A → ℕ

pub data Side : Type 0 where
  invalid sell buy : Side

instance abbrev pub side_enum : Enum Side
side_enum = record { value = λ s. elim s [ invalid ↦ 0 | sell ↦ 1 | buy ↦ 2 ] }

pub data OrderMode : Type 0 where
  invalid market limit : OrderMode

instance abbrev pub order_mode_enum : Enum OrderMode
order_mode_enum = record {
  value = λ m. elim m [ OrderMode.invalid ↦ 0 | OrderMode.market ↦ 1 | OrderMode.limit ↦ 2 ];
}

pub data PendingAction : Type 0 where
  nothing place amend cancel trigger : PendingAction

pub data TradingPair : Type 0 where
  btcusdt ethusdt ethbtc btceth bnbusdt bnbeth ethbnb solusdt solbnb xrpusdt adausdt adaxrp :
      TradingPair
  count : TradingPair

pub record Order (C S : Type 0) : Type 0 where
  pub category : C
  pub side : Side
  pub order_mode : OrderMode
  pub order_status : S
  pub pending_action : PendingAction
  pub order_id : ℕ
  pub trading_pair : TradingPair
  pub price : ℤ
  pub qty : ℤ
