-- ===== src/Triplets.antt =====
-- aos/market_triplet_manager/market_triplet_manager.h: which assets are connected with which. A
-- `std::unordered_set` is the list of its elements, the first inserted first.
pub mod Linked
use cryptobot_algo.Base.{
  ℕ, Bool, true, false, ◌||◌, Option, none, some, List, [], ◌∷◌, ◌++◌, ◌==◌, if◌then◌else◌,
}
use cryptobot_algo.Base.Maps.{Map, empty, insert, get_or, contains}

abbrev pub MarketTripletManager : Type 0
MarketTripletManager = Map (List ℕ)

abbrev pub new_market_triplet_manager : MarketTripletManager
new_market_triplet_manager = empty

unfoldable pub member : ℕ → List ℕ → Bool
member x [] = false
member x (y ∷ ys) = let rest = member x ys in (y == x) || rest

-- `insert` of a set.
unfoldable pub put : ℕ → List ℕ → List ℕ
unfolding member
put x xs = if member x xs then xs else xs ++ x ∷ []

-- `pairs_[x].insert(y)`.
unfoldable pub put_pair : ℕ → ℕ → MarketTripletManager → MarketTripletManager
unfolding put
put_pair x y m = insert x (put y (get_or [] (m x))) m

unfoldable pub connect : ℕ → ℕ → MarketTripletManager → MarketTripletManager
unfolding put_pair
connect x y m = put_pair y x (put_pair x y m)

unfoldable pub get_pairs : ℕ → MarketTripletManager → List ℕ
get_pairs x m = get_or [] (m x)

unfoldable pub has_pair : ℕ → MarketTripletManager → Bool
has_pair x m = contains (m x)

-- The pooled class has the same text.
abbrev pub pooled_connect : ℕ → ℕ → MarketTripletManager → MarketTripletManager
pooled_connect = connect

abbrev pub pooled_get_pairs : ℕ → MarketTripletManager → List ℕ
pooled_get_pairs = get_pairs

abbrev pub pooled_has_pair : ℕ → MarketTripletManager → Bool
pooled_has_pair = has_pair

-- A history of calls of `Connect`.
unfoldable pub connect_all : List (ℕ × ℕ) → MarketTripletManager → MarketTripletManager
unfolding connect
connect_all [] m = m
connect_all ((x, y) ∷ links) m = connect_all links (connect x y m)
