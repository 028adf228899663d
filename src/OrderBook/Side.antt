-- ===== src/OrderBook/Side.antt =====
-- aos/order_book/order_book.h, `OrderBookInner`: one side of the book, its `price_to_…_level_` map,
-- `…_levels_` tree and `…_lvl_memory_pool_`. The map and the tree hold addresses of the same levels,
-- so the memory is explicit. The sides differ in the order of their prices only, the parameter
-- `before`. `none` is undefined behaviour: a null pointer that is dereferenced.
pub mod Nodes
pub mod Removal
pub mod Refine
pub mod Clearing
pub mod Room
use cryptobot_algo.Base.{
  ℕ, zero, suc, ◌≡◌, Bool, Option, none, some, List, [], ◌∷◌, ◌==◌, if◌then◌else◌, map, length,
}
use cryptobot_algo.Base.Maps.{Map, empty, insert, erase}
use cryptobot_algo.OrderBook.Level.{Level, level}
use cryptobot_algo.OrderBook.Interfaces.{AvlTree, BoostPool}

abbrev pub Memory : Type 0
Memory = ℕ → Level

abbrev pub store : Memory → ℕ → Level → Memory
store m a l b = if a == b then l else m b

-- The comparison of the tree, which reads the levels.
abbrev pub less : (ℕ → ℕ → Bool) → Memory → ℕ → ℕ → Bool
less before m a b = before (m a).price (m b).price

module _ (trees : AvlTree) (pools : BoostPool) where
  open trees use {Tree, to_list, insert_unique, erase as unlink}
  open pools use {Pool, fresh, malloc, free}

  pub record Side : Type 0 where
    pub index : Map ℕ
    pub tree : Tree
    pub memory : Memory
    pub pool : Pool
    pub pool_size : ℕ

  -- The constructor, and the content of the memory before anything is stored.
  abbrev pub new_side : ℕ → Memory → Side
  new_side max_level m = record {
    index = empty;
    tree = trees.empty;
    memory = m;
    pool = fresh;
    pool_size = max_level;
  }

  abbrev pub nodes : Side → List ℕ
  nodes s = to_list s.tree

  -- `MemoryPoolNotThreadSafety::Allocate`, without the constructor of the level.
  pub allocate : Side → Option ℕ × Pool
  allocate s = if s.pool_size == 0 then (none, s.pool) else malloc s.pool

  -- `Clear`: the map, then the nodes from `begin()` on, while there is one. The number is fuel.
  pub clear_loop : ℕ → Side → Side
  clear_loop zero s = s
  clear_loop (suc n) s = elim (nodes s) [
    | [] ↦ s
    | a ∷ rest ↦ clear_loop n (record s { tree = unlink a s.tree; pool = free a s.pool })
  ]

  pub clear : Side → Side
  unfolding clear_loop
  clear s = clear_loop (length (nodes s)) (record s { index = empty })

  -- `Remove…Level`.
  pub remove_level : ℕ → Side → Side
  remove_level price s = elim (s.index price) [
    | none ↦ s
    | some a ↦ record s {
      index = erase price s.index;
      tree = unlink a s.tree;
      pool = free a s.pool;
    }
  ]

  module _ (before : ℕ → ℕ → Bool) where
    -- A level that was just allocated is entered into the map and the tree.
    pub link_level : ℕ → ℕ → Option ℕ × Pool → Side → Option Side
    link_level price qty (none, pool) s = none
    link_level price qty (some a, pool) s =
        let memory = store s.memory a (level price qty) in
        some (record s {
          index = insert price a s.index;
          tree = insert_unique (less before memory) a s.tree;
          memory = memory;
          pool = pool;
        })

    -- `Add…Level`.
    pub add_level : ℕ → ℕ → Side → Option Side
    unfolding allocate link_level
    add_level price qty s = elim (s.index price) [
      | some a ↦ some (record s { memory = store s.memory a (level price qty) })
      | none ↦ link_level price qty (allocate s) s
    ]
