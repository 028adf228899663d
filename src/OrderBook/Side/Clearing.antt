-- ===== src/OrderBook/Side/Clearing.antt =====
-- What `Clear` and the constructor leave of a side.
use cryptobot_algo.Base.{
  ℕ, zero, suc, ◌≡◌, refl, sym, ap, ◌∙◌, Bool, true, false, List, [], ◌∷◌, arith, ◌==◌,
  if◌then◌else◌, length,
}
use cryptobot_algo.Base.Maps.{Map, empty}
use cryptobot_algo.OrderBook.Level.{IsStrictOrder}
use cryptobot_algo.OrderBook.Interfaces.{AvlTree, BoostPool, remove_node, has_node}
use cryptobot_algo.OrderBook.Side.{Memory, Side, new_side, nodes, clear, clear_loop}
use cryptobot_algo.OrderBook.Side.Nodes.{IsDistinct}
use cryptobot_algo.OrderBook.Side.Removal.{
  has_node-remove_node, remove_head, has_head, has_none, find_none,
}
use cryptobot_algo.OrderBook.Side.Refine.{view, IsValid, Holds}

module _ (trees : AvlTree) (pools : BoostPool) where
  open trees use {to_list-empty, to_list-erase}
  open pools use {used, used-fresh, used-free}

  -- What the loop has done when it ends: no node is left, in the tree or in use.
  record IsCleared (s : Side trees pools) (i : Map ℕ) : Type 0 where
    none_linked : nodes trees pools s ≡ []
    none_used : (b : ℕ) → used s.pool b ≡ false
    same_index : s.index ≡ i

  clear_loop-IsCleared :
      (n : ℕ) (s : Side trees pools) (ns : List ℕ)
      → nodes trees pools s ≡ ns
      → length ns ≡ n
      → IsDistinct ns
      → ((b : ℕ) → used s.pool b ≡ has_node b ns)
      → IsCleared (clear_loop trees pools n s) s.index
  unfolding clear_loop
  clear_loop-IsCleared zero s [] e l d u = record {
    none_linked = e;
    none_used = λ b. u b ∙ has_none b;
    same_index = refl;
  }
  clear_loop-IsCleared zero s (a ∷ ns) e l d u = absurd (omega arith)
  clear_loop-IsCleared (suc n) s [] e l d u = absurd (omega arith)
  clear_loop-IsCleared (suc n) s (a ∷ ns) e l d u =
      let linked : has_node a (nodes trees pools s) ≡ true = rw e (has_head a ns) in
      let left : trees.to_list (trees.erase a s.tree) ≡ ns =
        to_list-erase a s.tree linked ∙ ap (remove_node a) e ∙ remove_head a ns in
      let freed : (b : ℕ) → used (pools.free a s.pool) b ≡ has_node b ns = λ b.
        used-free s.pool a b
        ∙ ap (λ (x : Bool). if a == b then false else x) (u b)
        ∙ sym (has_node-remove_node a b (a ∷ ns) d)
        ∙ ap (has_node b) (remove_head a ns) in
      rw (clear_loop, e)
        (clear_loop-IsCleared n
          (record s { tree = trees.erase a s.tree; pool = pools.free a s.pool }) ns left
          (omega arith) d.1 freed)

  module _ (before : ℕ → ℕ → Bool) (order : IsStrictOrder before) where
    IsCleared-Holds :
        (s : Side trees pools) → IsCleared s empty → Holds trees pools before order [] s
    IsCleared-Holds s c =
        let v : view trees pools before order s ≡ [] = rw c.none_linked in
        record {
          valid = record {
            sorted = rw v tt;
            indexed = λ p. rw (c.none_linked, c.same_index, find_none s.memory p);
            distinct = rw c.none_linked tt;
            allocated = λ b. rw (c.none_linked, has_none b) (c.none_used b);
          };
          viewed = v;
        }

    -- `Clear` of a valid side ends, and leaves a valid side with no level: no node is linked, and no
    -- block is in use any more.
    pub clear-Holds :
        (s : Side trees pools)
        → IsValid trees pools before order s
        → Holds trees pools before order [] (clear trees pools s)
    unfolding clear
    clear-Holds s v =
        let s' : Side trees pools = record s { index = empty } in
        IsCleared-Holds (clear trees pools s) (
          clear_loop-IsCleared (length (nodes trees pools s)) s' (nodes trees pools s) refl refl
            v.distinct v.allocated)

    pub new_side-Holds :
        (n : ℕ) (m : Memory) → Holds trees pools before order [] (new_side trees pools n m)
    new_side-Holds n m =
        IsCleared-Holds (new_side trees pools n m)
          (record { none_linked = to_list-empty; none_used = used-fresh; same_index = refl })
