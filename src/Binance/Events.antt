-- ===== src/Binance/Events.antt =====
-- aoe/binance/order_book_event: the events that the parsers hand to the synchronisers. Prices and
-- quantities are whole numbers of ticks and lots.
use cryptobot_algo.Base.{ℕ, List}
use cryptobot_algo.OrderBook.Level.{RawLevel}

-- The enumerators of `aos::TradingPair` are numbered from 0; `k_count` closes the enumeration.
abbrev pub k_count : ℕ
k_count = 12

pub record Snapshot : Type 0 where
  pub update_id : ℕ
  pub trading_pair : ℕ
  pub bids : List RawLevel
  pub asks : List RawLevel

-- `previous_update_id` is that of the futures events; the spot code never reads it.
pub record Diff : Type 0 where
  pub first_update_id : ℕ
  pub final_update_id : ℕ
  pub previous_update_id : ℕ
  pub trading_pair : ℕ
  pub bids : List RawLevel
  pub asks : List RawLevel
