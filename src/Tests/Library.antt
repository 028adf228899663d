-- ===== src/Tests/Library.antt =====
-- A tree that is the list of its nodes, and a pool that never hands out a block twice.
use cryptobot_algo.Base.{
  ℕ, ◌+◌, refl, Bool, true, false, some, List, [], ◌==◌, ltb, if◌then◌else◌, arith,
}
use cryptobot_algo.OrderBook.Level.{level}
use cryptobot_algo.OrderBook.Interfaces.{AvlTree, BoostPool, insert_node, remove_node}
use cryptobot_algo.OrderBook.Side.{Memory}
use cryptobot_algo.OrderBook.Book.Orders.{IsEndless}

abbrev pub list_tree : AvlTree
unfolding insert_node remove_node
list_tree = record {
  Tree = List ℕ;
  empty = [];
  to_list = λ t. t;
  insert_unique = insert_node;
  erase = remove_node;
  to_list-empty = refl;
  to_list-insert_unique = λ less n t o. refl;
  to_list-erase = λ n t h. refl;
}

-- The next block, and which of the earlier ones are in use.
abbrev Blocks : Type 0
Blocks = ℕ × (ℕ → Bool)

abbrev used_in : Blocks → ℕ → Bool
used_in p b = if ltb b p.0 then p.1 b else false

abbrev pub bump_pool : BoostPool
bump_pool = record {
  Pool = Blocks;
  fresh = (0, λ b. false);
  malloc = λ p. (some p.0, (p.0 + 1, λ b. if p.0 == b then true else p.1 b));
  free = λ a p. (p.0, λ b. if a == b then false else p.1 b);
  used = used_in;
  used-fresh = λ b. ground arith;
  malloc_unused = λ p a h. ground arith;
  used-malloc = λ p a b h. ground arith;
  used-free = λ p a b. ground arith;
}

pub bump_pool-IsEndless : IsEndless bump_pool
bump_pool-IsEndless p h = cc

abbrev pub blank : Memory
blank a = level 0 0
