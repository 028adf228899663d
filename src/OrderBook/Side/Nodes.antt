-- ===== src/OrderBook/Side/Nodes.antt =====
-- Lists of nodes against the lists of the levels that they hold.
use cryptobot_algo.Base.{
  ℕ, ◌≡◌, refl, inl, inr, Bool, true, false, Option, none, some, List, [], ◌∷◌, arith, ◌==◌,
  if◌then◌else◌, map, Bool-cases,
}
use cryptobot_algo.OrderBook.Level.{Level, level, upsert, IsSorted, Behind, IsStrictOrder}
use cryptobot_algo.OrderBook.Interfaces.{insert_node, has_node}
use cryptobot_algo.OrderBook.Side.{Memory, store, less}

-- The node that holds the level of a price.
unfoldable pub find_node : Memory → ℕ → List ℕ → Option ℕ
find_node m p [] = none
find_node m p (n ∷ ns) = if (m n).price == p then some n else find_node m p ns

abbrev pub IsDistinct : List ℕ → Type 0
IsDistinct [] = Unit
IsDistinct (n ∷ ns) = (has_node n ns ≡ false) × IsDistinct ns

map-store_unused :
    (m : Memory) (a : ℕ) (l : Level) (ns : List ℕ)
    → has_node a ns ≡ false
    → map (store m a l) ns ≡ map m ns
unfolding has_node
map-store_unused m a l [] h = refl
map-store_unused m a l (n ∷ ns) h = ground (arith, map-store_unused m a l ns)

pub find_node-has_node :
    (m : Memory) (p a : ℕ) (ns : List ℕ)
    → find_node m p ns ≡ some a
    → (has_node a ns ≡ true) × ((m a).price ≡ p)
unfolding find_node has_node
find_node-has_node m p a [] h = cc
find_node-has_node m p a (n ∷ ns) h = ground (arith, find_node-has_node m p a ns)

-- A level is written in place: its node keeps its price.
pub find_node-store :
    (m : Memory) (p q a r : ℕ) (ns : List ℕ)
    → (m a).price ≡ p
    → find_node (store m a (level p q)) r ns ≡ find_node m r ns
unfolding find_node
find_node-store m p q a r [] h = refl
find_node-store m p q a r (n ∷ ns) h = ground (arith, find_node-store m p q a r ns h)

module _ (before : ℕ → ℕ → Bool) (order : IsStrictOrder before) where
  open order use {irrefl, trans, connected}

  abbrev less_with : Memory → ℕ → ℕ → ℕ → ℕ → ℕ → Bool
  less_with m a p q = less before (store m a (level p q))

  -- A new node enters the search by price, the set of nodes, and the view as a list of levels.
  pub find_node-insert :
      (m : Memory) (p q a r : ℕ) (ns : List ℕ)
      → has_node a ns ≡ false
      → find_node m p ns ≡ none
      → find_node (store m a (level p q)) r (insert_node (less_with m a p q) a ns)
        ≡ (if p == r then some a else find_node m r ns)
  unfolding find_node insert_node has_node
  find_node-insert m p q a r [] h e = ground arith
  find_node-insert m p q a r (n ∷ ns) h e =
      ground (arith, find_node-insert m p q a r ns, find_node-unused r ns, connected p (m n).price)
    where
      find_node-unused :
          (r : ℕ) (ns : List ℕ)
          → has_node a ns ≡ false
          → find_node (store m a (level p q)) r ns ≡ find_node m r ns
      find_node-unused r [] h = refl
      find_node-unused r (n ∷ ns) h = ground (arith, find_node-unused r ns)

  pub insert_nodes :
      (m : Memory) (p q a : ℕ) (ns : List ℕ)
      → has_node a ns ≡ false
      → find_node m p ns ≡ none
      → map (store m a (level p q)) (insert_node (less_with m a p q) a ns)
        ≡ upsert before p q (map m ns)
  unfolding find_node insert_node has_node upsert
  insert_nodes m p q a [] h e = ground arith
  insert_nodes m p q a (n ∷ ns) h e =
      ground (
        arith,
        insert_nodes m p q a ns,
        map-store_unused m a (level p q) ns,
        connected p (m n).price,
      )

  pub has_node-insert_node :
      (m : Memory) (p q a b : ℕ) (ns : List ℕ)
      → has_node a ns ≡ false
      → find_node m p ns ≡ none
      → has_node b (insert_node (less_with m a p q) a ns) ≡ (if a == b then true else has_node b ns)
  unfolding find_node insert_node has_node
  has_node-insert_node m p q a b [] h e = ground arith
  has_node-insert_node m p q a b (n ∷ ns) h e =
      ground (arith, has_node-insert_node m p q a b ns, connected p (m n).price)

  pub insert_node-IsDistinct :
      (m : Memory) (p q a : ℕ) (ns : List ℕ)
      → has_node a ns ≡ false
      → find_node m p ns ≡ none
      → IsDistinct ns
      → IsDistinct (insert_node (less_with m a p q) a ns)
  unfolding find_node insert_node has_node
  insert_node-IsDistinct m p q a [] h e d = (refl, tt)
  insert_node-IsDistinct m p q a (n ∷ ns) h e (d, ds) = ground (
    arith,
    insert_node-IsDistinct m p q a ns,
    has_node-insert_node m p q a n ns,
    connected p (m n).price,
  )

  find_node-Behind :
      (m : Memory) (x p a : ℕ) (ns : List ℕ)
      → Behind before x (map m ns)
      → find_node m p ns ≡ some a
      → before x p ≡ true
  unfolding find_node
  find_node-Behind m x p a [] b e = cc
  find_node-Behind m x p a (n ∷ ns) (b, bs) e = ground (arith, find_node-Behind m x p a ns bs)

  before_asym : (x y : ℕ) → before x y ≡ true → before y x ≡ false
  before_asym x y h = elim (Bool-cases (before y x)) [
    | inr e ↦ e
    | inl e ↦ let loop = trans x y x h e in ground (arith, irrefl x)
  ]

  -- A level that is written in place.
  pub store_nodes :
      (m : Memory) (p q a : ℕ) (ns : List ℕ)
      → IsSorted before (map m ns)
      → IsDistinct ns
      → find_node m p ns ≡ some a
      → map (store m a (level p q)) ns ≡ upsert before p q (map m ns)
  unfolding find_node upsert
  store_nodes m p q a [] s d e = cc
  store_nodes m p q a (n ∷ ns) (b, s) (d, ds) e = ground (
    arith,
    store_nodes m p q a ns s ds,
    map-store_unused m a (level p q) ns,
    find_node-Behind m (m n).price p a ns b,
    before_asym (m n).price p,
    find_node-has_node m p a ns,
  )
