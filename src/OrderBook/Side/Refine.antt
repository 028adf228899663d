-- ===== src/OrderBook/Side/Refine.antt =====
-- One side of the order book against its specification: the list of levels, the best first.
use cryptobot_algo.Base.{
  ℕ, ◌≡◌, refl, sym, ap, ◌∙◌, Bool, true, false, Option, none, some, List, arith, ◌==◌,
  if◌then◌else◌, map, Option-cases, inl, inr,
}
use cryptobot_algo.OrderBook.Level.{
  Level, level, upsert, delete, IsSorted, IsStrictOrder, upsert-IsSorted, delete-IsSorted,
}
use cryptobot_algo.OrderBook.Interfaces.{AvlTree, BoostPool, has_node}
use cryptobot_algo.OrderBook.Side.{
  store, less, Side, nodes, allocate, remove_level, link_level, add_level,
}
use cryptobot_algo.OrderBook.Side.Nodes.{
  find_node, IsDistinct, find_node-has_node, find_node-store, find_node-insert, insert_nodes,
  has_node-insert_node, insert_node-IsDistinct, store_nodes,
}
use cryptobot_algo.OrderBook.Side.Removal.{
  remove_nodes, has_node-remove_node, remove_node-IsDistinct, find_node-remove, IsSorted-IsOrdered,
  delete_missing,
}

module _ (trees : AvlTree) (pools : BoostPool) (before : ℕ → ℕ → Bool)
    (order : IsStrictOrder before) where
  open trees use {to_list-empty, to_list-insert_unique, to_list-erase}
  open pools use {used, used-fresh, malloc_unused, used-malloc, used-free}

  -- The levels, as an iteration over the tree reads them.
  abbrev pub view : Side trees pools → List Level
  view s = map s.memory (nodes trees pools s)

  -- The levels are in order, the map finds the node of each price, no node is linked twice, and just
  -- the linked nodes are allocated.
  pub record IsValid (s : Side trees pools) : Type 0 where
    pub sorted : IsSorted before (view s)
    pub indexed : (p : ℕ) → s.index p ≡ find_node s.memory p (nodes trees pools s)
    pub distinct : IsDistinct (nodes trees pools s)
    pub allocated : (b : ℕ) → used s.pool b ≡ has_node b (nodes trees pools s)

  -- `s` stands for the list of levels `ls`.
  pub record Holds (ls : List Level) (s : Side trees pools) : Type 0 where
    pub valid : IsValid s
    pub viewed : view s ≡ ls

  -- A level that is there is written in place.
  overwrite :
      (p q a : ℕ) (s : Side trees pools)
      → IsValid s
      → s.index p ≡ some a
      → Holds (upsert before p q (view s)) (record s { memory = store s.memory a (level p q) })
  overwrite p q a s v e =
      let ns = nodes trees pools s in
      let found : find_node s.memory p ns ≡ some a = sym (v.indexed p) ∙ e in
      let same = store_nodes before order s.memory p q a ns v.sorted v.distinct found in
      record {
        valid = record {
          sorted = rw same (upsert-IsSorted before order p q (view s) v.sorted);
          indexed = λ r.
              v.indexed r
              ∙ sym (
                  find_node-store s.memory p q a r ns (find_node-has_node s.memory p a ns found).1);
          distinct = v.distinct;
          allocated = v.allocated;
        };
        viewed = same;
      }

  erase_level :
      (p a : ℕ) (s : Side trees pools)
      → IsValid s
      → s.index p ≡ some a
      → Holds (delete p (view s)) (remove_level trees pools p s)
  unfolding remove_level
  erase_level p a s v e =
      let ns = nodes trees pools s in
      let found : find_node s.memory p ns ≡ some a = sym (v.indexed p) ∙ e in
      let linked = (find_node-has_node s.memory p a ns found).0 in
      let left = to_list-erase a s.tree linked in
      let same : map s.memory (trees.to_list (trees.erase a s.tree)) ≡ delete p (view s) =
        ap (map s.memory) left ∙ remove_nodes s.memory p a ns found in
      rw (e, remove_level)
        (record {
          valid = record {
            sorted = rw same (delete-IsSorted before order p (view s) v.sorted);
            indexed = λ r.
                rw (left, find_node-remove before order s.memory p a r ns v.sorted found)
                  (ap (λ (o : Option ℕ). if p == r then none else o) (v.indexed r));
            distinct = rw left (remove_node-IsDistinct a ns v.distinct);
            allocated = λ b.
                rw (left, has_node-remove_node a b ns v.distinct, used-free s.pool a b)
                  (ap (λ (o : Bool). if a == b then false else o) (v.allocated b));
          };
          viewed = same;
        })

  -- `RemoveLevel` of a valid side deletes the price from the list of levels, and keeps the side valid.
  pub remove_level-Holds :
      (p : ℕ) (s : Side trees pools)
      → IsValid s
      → Holds (delete p (view s)) (remove_level trees pools p s)
  unfolding remove_level
  remove_level-Holds p s v = elim (Option-cases (s.index p)) [
    | inr (a, e) ↦ erase_level p a s v e
    | inl e ↦
        rw (e, remove_level)
          (record {
            valid = v;
            viewed = sym (delete_missing s.memory p (nodes trees pools s) (sym (v.indexed p) ∙ e));
          })
  ]

  allocate-some :
      (s : Side trees pools) (a b : ℕ)
      → (allocate trees pools s).0 ≡ some a
      → (used s.pool a ≡ false)
        × (used (allocate trees pools s).1 b ≡ (if a == b then true else used s.pool b))
  unfolding allocate
  allocate-some s a b e = ground (arith, malloc_unused s.pool a, used-malloc s.pool a b)

  -- A side after `Add…Level`: the level is written; undefined behaviour comes only from an allocation
  -- that fails, for a price that is not there.
  abbrev pub Added : ℕ → ℕ → Side trees pools → Option (Side trees pools) → Type 0
  Added p q s none = (s.index p ≡ none) × ((allocate trees pools s).0 ≡ none)
  Added p q s (some s') = Holds (upsert before p q (view s)) s'

  link_level-Added :
      (p q : ℕ) (s : Side trees pools) (block : Option ℕ × pools.Pool)
      → IsValid s
      → s.index p ≡ none
      → allocate trees pools s ≡ block
      → Added p q s (link_level trees pools before p q block s)
  unfolding link_level
  link_level-Added p q s (none, pool) v e b = (e, ap (λ (x : Option ℕ × pools.Pool). x.0) b)
  link_level-Added p q s (some a, pool) v e b =
      let ns = nodes trees pools s in
      let m = store s.memory a (level p q) in
      let got : (allocate trees pools s).0 ≡ some a = ap (λ (x : Option ℕ × pools.Pool). x.0) b in
      let pool_is : (allocate trees pools s).1 ≡ pool = ap (λ (x : Option ℕ × pools.Pool). x.1) b in
      let unused : has_node a ns ≡ false = sym (v.allocated a) ∙ (allocate-some s a a got).0 in
      let missing : find_node s.memory p ns ≡ none = sym (v.indexed p) ∙ e in
      let entered =
        to_list-insert_unique (less before m) a s.tree
          (IsSorted-IsOrdered before order s.memory a (level p q) ns unused v.sorted) in
      let same : map m (trees.to_list (trees.insert_unique (less before m) a s.tree))
          ≡ upsert before p q (view s) =
        ap (map m) entered ∙ insert_nodes before order s.memory p q a ns unused missing in
      record {
        valid = record {
          sorted = rw same (upsert-IsSorted before order p q (view s) v.sorted);
          indexed = λ r.
              rw (entered, find_node-insert before order s.memory p q a r ns unused missing)
                (ap (λ (o : Option ℕ). if p == r then some a else o) (v.indexed r));
          distinct =
              rw entered
                (insert_node-IsDistinct before order s.memory p q a ns unused missing v.distinct);
          allocated = λ b'.
              rw (entered, has_node-insert_node before order s.memory p q a b' ns unused missing)
                (sym (ap (λ (x : pools.Pool). used x b') pool_is)
                  ∙ (allocate-some s a b' got).1
                  ∙ ap (λ (o : Bool). if a == b' then true else o) (v.allocated b'));
        };
        viewed = same;
      }

  -- `AddLevel` of a valid side: the result is undefined behaviour only where the price is new and no
  -- block can be allocated; otherwise it is a valid side that stands for the list of levels with the
  -- quantity written at the price.
  pub add_level-Added :
      (p q : ℕ) (s : Side trees pools)
      → IsValid s
      → Added p q s (add_level trees pools before p q s)
  unfolding add_level
  add_level-Added p q s v = elim (Option-cases (s.index p)) [
    | inr (a, e) ↦ rw (e, add_level) (overwrite p q a s v e)
    | inl e ↦ rw (e, add_level) (link_level-Added p q s (allocate trees pools s) v e refl)
  ]
