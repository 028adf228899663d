-- ===== src/OrderBook/Book/Best.antt =====
-- The best bid and ask, and the empty book.
use cryptobot_algo.Base.{
  ◌≢◌, ℕ, ◌≤◌, ◌≡◌, refl, Bool, false, Option, none, some, List, [], ◌∷◌, arith, ltb, map, ◌⊎◌, inl,
  inr, ap, sym, ◌∙◌,
}
use cryptobot_algo.OrderBook.Level.{Level, qty_at, Behind, IsSorted}
use cryptobot_algo.OrderBook.Interfaces.{AvlTree, BoostPool}
use cryptobot_algo.OrderBook.Side.{Memory, nodes}
use cryptobot_algo.OrderBook.Side.Refine.{view}
use cryptobot_algo.OrderBook.Side.Clearing.{clear-Holds, new_side-Holds}
use cryptobot_algo.OrderBook.Side.Room.{clear_room}
use cryptobot_algo.OrderBook.Book.{Book, BboFull, new_book, clear_book, get_bbo, greater}
use cryptobot_algo.OrderBook.Book.Orders.{greater-IsStrictOrder, ltb-IsStrictOrder, IsEndless}
use cryptobot_algo.OrderBook.Book.Events.{IsLive, bid_at, ask_at}

qty_at-cons : (l : Level) (ls : List Level) → qty_at l.price (l ∷ ls) ≡ some l.qty
unfolding qty_at
qty_at-cons l ls = ground arith

-- A price that is shown on a list of levels stands behind its head, or is the head's.
qty_at-head :
    (before : ℕ → ℕ → Bool) (l : Level) (ls : List Level) (r q : ℕ)
    → Behind before l.price ls
    → qty_at r (l ∷ ls) ≡ some q
    → before l.price r ≡ false
    → r ≡ l.price
unfolding qty_at
qty_at-head before l [] r q b e h = ground arith
qty_at-head before l (k ∷ ls) r q b e h = ground (arith, qty_at-head before l ls r q b.1)

at_most : (r p : ℕ) → (greater p r ≡ false → r ≡ p) → r ≤ p
at_most r p h = ground arith

at_least : (r p : ℕ) → (ltb p r ≡ false → r ≡ p) → p ≤ r
at_least r p h = ground arith

module _ (trees : AvlTree) (pools : BoostPool) (endless : IsEndless pools) where
  -- The best bid is quoted with its quantity, and no bid is higher; likewise for the asks.
  abbrev pub IsBest : Book trees pools → BboFull → Type 0
  IsBest b x =
      (bid_at trees pools endless x.bid_price b ≡ some x.bid_qty)
      × ((r q : ℕ) → bid_at trees pools endless r b ≡ some q → r ≤ x.bid_price)
      × (ask_at trees pools endless x.ask_price b ≡ some x.ask_qty)
      × ((r q : ℕ) → ask_at trees pools endless r b ≡ some q → x.ask_price ≤ r)

  -- `GetBBO` without a result means that one side shows no price at all.
  abbrev pub IsOneSided : Book trees pools → Type 0
  IsOneSided b =
      ((r : ℕ) → bid_at trees pools endless r b ≡ none)
      ⊎ ((r : ℕ) → ask_at trees pools endless r b ≡ none)

  abbrev pub IsBbo : Book trees pools → Option BboFull → Type 0
  IsBbo b none = IsOneSided b
  IsBbo b (some x) = IsBest b x

  best_of :
      (b : Book trees pools) (ns ks : List ℕ)
      → IsLive trees pools endless b
      → nodes trees pools b.bids ≡ ns
      → nodes trees pools b.asks ≡ ks
      → IsBbo b (get_bbo trees pools b)
  unfolding get_bbo qty_at
  best_of b [] ks v e f = rw (e, get_bbo) (inl λ r. rw e refl)
  best_of b (n ∷ ns) [] v e f = rw (e, f, get_bbo) (inr λ r. rw f refl)
  best_of b (n ∷ ns) (k ∷ ks) v e f =
      let bid = b.bids.memory n in
      let ask = b.asks.memory k in
      let bids = map b.bids.memory ns in
      let asks = map b.asks.memory ks in
      let bids_seen : view trees pools greater greater-IsStrictOrder b.bids ≡ bid ∷ bids =
        ap (map b.bids.memory) e in
      let asks_seen : view trees pools ltb ltb-IsStrictOrder b.asks ≡ ask ∷ asks =
        ap (map b.asks.memory) f in
      let down : IsSorted greater (bid ∷ bids) = rw e at v.bids_ready.valid.sorted in
      let up : IsSorted ltb (ask ∷ asks) = rw f at v.asks_ready.valid.sorted in
      rw (e, f, get_bbo)
        (
          ap (qty_at bid.price) bids_seen ∙ qty_at-cons bid bids,
          λ r q h.
              at_most r bid.price
                (qty_at-head greater bid bids r q down.0 (sym (ap (qty_at r) bids_seen) ∙ h)),
          ap (qty_at ask.price) asks_seen ∙ qty_at-cons ask asks,
          λ r q h.
              at_least r ask.price
                (qty_at-head ltb ask asks r q up.0 (sym (ap (qty_at r) asks_seen) ∙ h)),
        )

  -- `GetBBO` of a live book is the best bid and the best ask with their quantities; it fails only
  -- where one side shows no price.
  pub get_bbo-IsBbo :
      (b : Book trees pools) → IsLive trees pools endless b → IsBbo b (get_bbo trees pools b)
  get_bbo-IsBbo b v = best_of b _ _ v refl refl

  -- A cleared live book is live and shows no price, and so does a new book of at least one level.
  pub clear_book-IsLive :
      (b : Book trees pools)
      → IsLive trees pools endless b
      → IsLive trees pools endless (clear_book trees pools b)
        × ((r : ℕ) → bid_at trees pools endless r (clear_book trees pools b) ≡ none)
        × ((r : ℕ) → ask_at trees pools endless r (clear_book trees pools b) ≡ none)
  unfolding clear_book qty_at
  clear_book-IsLive b v =
      let bids = clear-Holds trees pools greater greater-IsStrictOrder b.bids v.bids_ready.valid in
      let asks = clear-Holds trees pools ltb ltb-IsStrictOrder b.asks v.asks_ready.valid in
      (
        record {
          bids_ready = record {
            valid = bids.valid;
            room = rw (clear_room trees pools b.bids) v.bids_ready.room;
          };
          asks_ready = record {
            valid = asks.valid;
            room = rw (clear_room trees pools b.asks) v.asks_ready.room;
          };
        },
        λ r. rw bids.viewed refl,
        λ r. rw asks.viewed refl,
      )

  pub new_book-IsLive :
      (exchange pair max_level : ℕ) (m n : Memory)
      → max_level ≢ 0
      → IsLive trees pools endless (new_book trees pools exchange pair max_level m n)
  new_book-IsLive exchange pair max_level m n h =
      let bids = new_side-Holds trees pools greater greater-IsStrictOrder max_level m in
      let asks = new_side-Holds trees pools ltb ltb-IsStrictOrder max_level n in
      record {
        bids_ready = record { valid = bids.valid; room = h };
        asks_ready = record { valid = asks.valid; room = h };
      }
