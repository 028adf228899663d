-- ===== src/Tests/Books.antt =====
-- An order book of room for eight levels.
use cryptobot_algo.Base.{ℕ, ◌≡◌, ◌↔◌, ◌<◌, true, false, some, List, [], ◌∷◌, ltb, arith}
use cryptobot_algo.OrderBook.Level.{RawLevel, Level, level, delete}
use cryptobot_algo.OrderBook.Side.{Side, clear, remove_level, add_level}
use cryptobot_algo.OrderBook.Side.Refine.{
  IsValid, Holds, Added, view, add_level-Added, remove_level-Holds,
}
use cryptobot_algo.OrderBook.Side.Clearing.{clear-Holds}
use cryptobot_algo.OrderBook.Book.{Book, new_book, process_event, get_bbo}
use cryptobot_algo.OrderBook.Book.Orders.{final_qty, ltb-IsStrictOrder}
use cryptobot_algo.OrderBook.Book.Events.{IsLive, bid_at, ask_at, process_event-final_qty}
use cryptobot_algo.OrderBook.Book.Best.{IsBbo, get_bbo-IsBbo, new_book-IsLive}
use cryptobot_algo.OrderBook.Tops.{Quote, update_top_n}
use cryptobot_algo.OrderBook.Tops.Exact.{overlay, update_top_n-overlay}
use cryptobot_algo.Tests.Library.{list_tree, bump_pool, bump_pool-IsEndless, blank}

abbrev bids : List RawLevel
bids = record { price = 100; qty = 7 } ∷ record { price = 99; qty = 2 } ∷ []

abbrev asks : List RawLevel
asks = record { price = 102; qty = 1 } ∷ record { price = 101; qty = 3 } ∷ []

abbrev book : Book list_tree bump_pool
book = new_book list_tree bump_pool 1 2 8 blank blank

abbrev Live : Book list_tree bump_pool → Type 0
Live = IsLive list_tree bump_pool bump_pool-IsEndless

abbrev Filled : Type 0
Filled =
    (b : Book list_tree bump_pool) × (process_event list_tree bump_pool bids asks book ≡ some b)
    × Live b
    × ((r : ℕ)
        → bid_at list_tree bump_pool bump_pool-IsEndless r b
          ≡ final_qty r bids (bid_at list_tree bump_pool bump_pool-IsEndless r book))
    × ((r : ℕ)
        → ask_at list_tree bump_pool bump_pool-IsEndless r b
          ≡ final_qty r asks (ask_at list_tree bump_pool bump_pool-IsEndless r book))
    × (b.exchange_id ≡ 1)
    × (b.trading_pair ≡ 2)

process_event-final_qty_example : Filled
process_event-final_qty_example =
    process_event-final_qty list_tree bump_pool bump_pool-IsEndless bids asks book
      (new_book-IsLive list_tree bump_pool bump_pool-IsEndless 1 2 8 blank blank (omega arith))

-- The book after the event.
abbrev filled : Filled
filled =
    process_event-final_qty list_tree bump_pool bump_pool-IsEndless bids asks book
      (new_book-IsLive list_tree bump_pool bump_pool-IsEndless 1 2 8 blank blank (omega arith))

-- The asks of the book, with two levels.
abbrev side : Side list_tree bump_pool
side = filled.0.asks

abbrev side_IsValid : IsValid list_tree bump_pool ltb ltb-IsStrictOrder side
side_IsValid = filled.2.asks_ready.valid

add_level-Added_example :
    Added list_tree bump_pool ltb ltb-IsStrictOrder 100 7 side
      (add_level list_tree bump_pool ltb 100 7 side)
add_level-Added_example =
    add_level-Added list_tree bump_pool ltb ltb-IsStrictOrder 100 7 side side_IsValid

remove_level-Holds_example :
    Holds list_tree bump_pool ltb ltb-IsStrictOrder
      (delete 101 (view list_tree bump_pool ltb ltb-IsStrictOrder side))
      (remove_level list_tree bump_pool 101 side)
remove_level-Holds_example =
    remove_level-Holds list_tree bump_pool ltb ltb-IsStrictOrder 101 side side_IsValid

clear-Holds_example :
    Holds list_tree bump_pool ltb ltb-IsStrictOrder [] (clear list_tree bump_pool side)
clear-Holds_example = clear-Holds list_tree bump_pool ltb ltb-IsStrictOrder side side_IsValid

get_bbo-IsBbo_example :
    IsBbo list_tree bump_pool bump_pool-IsEndless filled.0 (get_bbo list_tree bump_pool filled.0)
get_bbo-IsBbo_example = get_bbo-IsBbo list_tree bump_pool bump_pool-IsEndless filled.0 filled.2

new_book-IsLive_example : Live book
new_book-IsLive_example =
    new_book-IsLive list_tree bump_pool bump_pool-IsEndless 1 2 8 blank blank (omega arith)

abbrev shown : List Level
shown = level 100 7 ∷ level 99 2 ∷ []

abbrev array : List Quote
array =
    record { price = 100; qty = 7 }
    ∷ record { price = 98; qty = 4 }
    ∷ record { price = 0; qty = 0 }
    ∷ []

update_top_n-overlay_example :
    let e = update_top_n 3 shown array 0 in
    (e.quotes ≡ overlay 3 shown array)
    × ((e.update_exist ≡ false) ↔ (e.quotes ≡ array))
    × (e.update_exist ≡ true → (e.max_valid_lvl < 3) × (e.max_valid_lvl < 2))
update_top_n-overlay_example = update_top_n-overlay 3 shown array 0 (omega arith)
