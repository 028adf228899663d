-- ===== src/OrderBook/Book/Events.antt =====
-- What an event does to the book, and what clearing does.
use cryptobot_algo.Base.{ℕ, ◌≡◌, refl, Option, some, List, ltb}
use cryptobot_algo.OrderBook.Level.{RawLevel, qty_at}
use cryptobot_algo.OrderBook.Interfaces.{AvlTree, BoostPool}
use cryptobot_algo.OrderBook.Side.Refine.{view}
use cryptobot_algo.OrderBook.Book.{Book, process_event, greater}
use cryptobot_algo.OrderBook.Book.Orders.{
  final_qty, greater-IsStrictOrder, ltb-IsStrictOrder, IsEndless, IsReady, add_orders-Quotes,
}

module _ (trees : AvlTree) (pools : BoostPool) (endless : IsEndless pools) where
  -- Both sides are valid and have room.
  pub record IsLive (b : Book trees pools) : Type 0 where
    pub bids_ready : IsReady trees pools endless greater greater-IsStrictOrder b.bids
    pub asks_ready : IsReady trees pools endless ltb ltb-IsStrictOrder b.asks

  -- The quantity that the book shows for a price on each side.
  abbrev pub bid_at : ℕ → Book trees pools → Option ℕ
  bid_at r b = qty_at r (view trees pools greater greater-IsStrictOrder b.bids)

  abbrev pub ask_at : ℕ → Book trees pools → Option ℕ
  ask_at r b = qty_at r (view trees pools ltb ltb-IsStrictOrder b.asks)

  -- On a pool that never runs out, an event on a live book of at least one level is processed without
  -- undefined behaviour. The new book is live; on each side it shows, at every price, the quantity of
  -- the last entry of the event for that price, nothing if that is 0, and what it showed before if
  -- there is no entry. The exchange and the pair stay.
  pub process_event-final_qty :
      (bids asks : List RawLevel) (b : Book trees pools)
      → IsLive b
      → (b' : Book trees pools) × (process_event trees pools bids asks b ≡ some b')
        × IsLive b'
        × ((r : ℕ) → bid_at r b' ≡ final_qty r bids (bid_at r b))
        × ((r : ℕ) → ask_at r b' ≡ final_qty r asks (ask_at r b))
        × (b'.exchange_id ≡ b.exchange_id)
        × (b'.trading_pair ≡ b.trading_pair)
  unfolding process_event
  process_event-final_qty bids asks b h =
      let (s, e, q) =
        add_orders-Quotes trees pools endless greater greater-IsStrictOrder bids b.bids
          h.bids_ready in
      let (t, f, k) =
        add_orders-Quotes trees pools endless ltb ltb-IsStrictOrder asks b.asks h.asks_ready in
      (
        record b { bids = s; asks = t },
        rw (process_event, e, f) refl,
        record { bids_ready = q.ready; asks_ready = k.ready },
        q.quoted,
        k.quoted,
        refl,
        refl,
      )
