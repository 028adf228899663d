-- ===== src/OrderBook/Book.antt =====
-- aos/order_book/order_book.h: `OrderBookInner` with its two sides, `OrderBook` on top of it, and
-- `ProcessEvent` and `ProcessClear` of `OrderBookEventListener`, which run on one strand.
pub mod Orders
pub mod Events
pub mod Best
use cryptobot_algo.Base.{
  ℕ, Bool, true, false, Option, none, some, List, [], ◌∷◌, ◌==◌, ltb, if◌then◌else◌,
}
use cryptobot_algo.OrderBook.Level.{RawLevel}
use cryptobot_algo.OrderBook.Interfaces.{AvlTree, BoostPool}
use cryptobot_algo.OrderBook.Side.{Side, Memory, new_side, nodes, clear, remove_level, add_level}

-- `std::greater<>` on the bids, `std::less<>` on the asks.
abbrev pub greater : ℕ → ℕ → Bool
greater a b = ltb b a

pub record BboFull : Type 0 where
  pub bid_price : ℕ
  pub bid_qty : ℕ
  pub ask_price : ℕ
  pub ask_qty : ℕ

module _ (trees : AvlTree) (pools : BoostPool) where
  pub record Book : Type 0 where
    pub bids : Side trees pools
    pub asks : Side trees pools
    pub exchange_id : ℕ
    pub trading_pair : ℕ

  -- The constructor, over the content of the memory of each pool.
  abbrev pub new_book : ℕ → ℕ → ℕ → Memory → Memory → Book
  new_book exchange_id trading_pair max_level m n = record {
    bids = new_side trees pools max_level m;
    asks = new_side trees pools max_level n;
    exchange_id = exchange_id;
    trading_pair = trading_pair;
  }

  pub clear_book : Book → Book
  clear_book b = record b { bids = clear trees pools b.bids; asks = clear trees pools b.asks }

  -- `AddBidOrder` and `AddAskOrder`, on their side.
  pub add_order : (ℕ → ℕ → Bool) → ℕ → ℕ → Side trees pools → Option (Side trees pools)
  add_order before price qty s =
      if qty == 0
      then some (remove_level trees pools price s)
      else add_level trees pools before price qty s

  abbrev pub add_bid_order : ℕ → ℕ → Side trees pools → Option (Side trees pools)
  add_bid_order = add_order greater

  abbrev pub add_ask_order : ℕ → ℕ → Side trees pools → Option (Side trees pools)
  add_ask_order = add_order ltb

  -- A loop of `ProcessEvent`.
  pub add_orders : (ℕ → ℕ → Bool) → List RawLevel → Side trees pools → Option (Side trees pools)
  add_orders before [] s = some s
  add_orders before (l ∷ ls) s = elim (add_order before l.price l.qty s) [
    | none ↦ none
    | some s' ↦ add_orders before ls s'
  ]

  pub process_event : List RawLevel → List RawLevel → Book → Option Book
  process_event new_bids new_asks b = elim (add_orders greater new_bids b.bids) [
    | none ↦ none
    | some bids' ↦ elim (add_orders ltb new_asks b.asks) [
      | none ↦ none
      | some asks' ↦ some (record b { bids = bids'; asks = asks' })
    ]
  ]

  -- `begin()` of each side, if there is one.
  pub get_bbo : Book → Option BboFull
  get_bbo b = elim (nodes trees pools b.bids) [
    | [] ↦ none
    | n ∷ ns ↦ elim (nodes trees pools b.asks) [
      | [] ↦ none
      | k ∷ ks ↦ some (record {
        bid_price = (b.bids.memory n).price;
        bid_qty = (b.bids.memory n).qty;
        ask_price = (b.asks.memory k).price;
        ask_qty = (b.asks.memory k).qty;
      })
    ]
  ]
