-- ===== src/OrderBook/Notifiers.antt =====
-- aos/order_book_subscriber/order_book_subscribers.h and `OrderBookNotifier` of
-- aos/order_book/order_book.h. Each `ProcessOnOrderBookUpdate` runs on a strand and reads the levels of
-- the book as they are then, the argument `ls`. The calls of a callback are recorded, newest first.
pub mod Follows
use cryptobot_algo.Base.{ℕ, Bool, true, false, not, ◌||◌, List, [], ◌∷◌, ◌++◌, ◌==◌, if◌then◌else◌}
use cryptobot_algo.OrderBook.Level.{Level}
use cryptobot_algo.OrderBook.Tops.{Quote, update_top, update_top_price}

-- `BestBidNotifier` and `BestAskNotifier`, on their side.
pub record QuoteNotifier : Type 0 where
  pub best : Quote
  pub calls : List Quote

unfoldable pub process_update : List Level → QuoteNotifier → QuoteNotifier
process_update ls n =
    let (update_exist, best) = update_top ls n.best in
    record { best = best; calls = if update_exist then best ∷ n.calls else n.calls }

-- The class for asks has the same text.
abbrev pub process_ask_update : List Level → QuoteNotifier → QuoteNotifier
process_ask_update = process_update

-- `BestBidPriceNotifier` and `BestAskPriceNotifier`. The price has no initialiser, so a new notifier
-- holds any price.
pub record PriceNotifier : Type 0 where
  pub best_price : ℕ
  pub price_calls : List ℕ

unfoldable pub process_price_update : List Level → PriceNotifier → PriceNotifier
process_price_update ls n =
    let (update_exist, price) = update_top_price ls n.best_price in
    record {
      best_price = price;
      price_calls = if update_exist then price ∷ n.price_calls else n.price_calls;
    }

abbrev pub process_ask_price_update : List Level → PriceNotifier → PriceNotifier
process_ask_price_update = process_price_update

-- `BestBidOrBestAskNotifier`, which has no callback; its signals are logged, with both quotes.
pub record BothNotifier : Type 0 where
  pub best_bid : Quote
  pub best_ask : Quote
  pub signals : List (Quote × Quote)

unfoldable pub process_both_update : List Level → List Level → BothNotifier → BothNotifier
process_both_update bids asks n =
    let (bid_exist, bid) = update_top bids n.best_bid in
    let (ask_exist, ask) = update_top asks n.best_ask in
    record {
      best_bid = bid;
      best_ask = ask;
      signals = if bid_exist || ask_exist then (bid, ask) ∷ n.signals else n.signals;
    }

-- What the notifier of the book calls: the book, and the subscribers, which are objects with an
-- identity. `E` is the type of the events.
pub data NotifierCall (E : Type 0) : Type 0 where
  book_event : E → NotifierCall E
  book_clear : NotifierCall E
  book_update : ℕ → NotifierCall E

pub record BookNotifier (E : Type 0) : Type 0 where
  pub subscribers : List ℕ
  pub made : List (NotifierCall E)

-- `std::erase_if` on the identity.
unfoldable pub erase_all : ℕ → List ℕ → List ℕ
erase_all sub [] = []
erase_all sub (s ∷ subs) = let rest = erase_all sub subs in if s == sub then rest else s ∷ rest

module _ {E : Type 0} where
  unfoldable pub update_all : List ℕ → List (NotifierCall E) → List (NotifierCall E)
  update_all [] made = made
  update_all (sub ∷ subs) made = update_all subs (book_update sub ∷ made)

  unfoldable pub notifier_on_event : E → BookNotifier E → BookNotifier E
  unfolding update_all
  notifier_on_event e n = record n { made = update_all n.subscribers (book_event e ∷ n.made) }

  unfoldable pub notifier_clear : BookNotifier E → BookNotifier E
  notifier_clear n = record n { made = book_clear ∷ n.made }

  unfoldable pub add_subscriber : ℕ → BookNotifier E → BookNotifier E
  add_subscriber sub n = record n { subscribers = n.subscribers ++ sub ∷ [] }

  unfoldable pub remove_subscriber : ℕ → BookNotifier E → BookNotifier E
  unfolding erase_all
  remove_subscriber sub n = record n { subscribers = erase_all sub n.subscribers }

-- The updates that a notifier processes, oldest first.
unfoldable pub process_updates : List (List Level) → QuoteNotifier → QuoteNotifier
unfolding process_update
process_updates [] n = n
process_updates (ls ∷ views) n = process_updates views (process_update ls n)

unfoldable pub process_price_updates : List (List Level) → PriceNotifier → PriceNotifier
unfolding process_price_update
process_price_updates [] n = n
process_price_updates (ls ∷ views) n = process_price_updates views (process_price_update ls n)
