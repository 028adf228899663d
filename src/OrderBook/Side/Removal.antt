-- ===== src/OrderBook/Side/Removal.antt =====
-- Taking a node out of a list of nodes, against the list of levels; the order of nodes in the tree.
use cryptobot_algo.Base.{
  ℕ, ◌≡◌, refl, Bool, true, false, none, some, List, [], ◌∷◌, arith, ◌==◌, if◌then◌else◌, All, map,
}
use cryptobot_algo.OrderBook.Level.{Level, delete, IsSorted, Behind, IsStrictOrder}
use cryptobot_algo.OrderBook.Interfaces.{remove_node, has_node, IsOrdered}
use cryptobot_algo.OrderBook.Side.{Memory, store, less}
use cryptobot_algo.OrderBook.Side.Nodes.{find_node, IsDistinct, find_node-has_node}

pub remove_nodes :
    (m : Memory) (p a : ℕ) (ns : List ℕ)
    → find_node m p ns ≡ some a
    → map m (remove_node a ns) ≡ delete p (map m ns)
unfolding find_node remove_node delete
remove_nodes m p a [] e = cc
remove_nodes m p a (n ∷ ns) e = ground (arith, remove_nodes m p a ns, find_node-has_node m p a ns)

pub delete_missing :
    (m : Memory) (p : ℕ) (ns : List ℕ) → find_node m p ns ≡ none → delete p (map m ns) ≡ map m ns
unfolding find_node delete
delete_missing m p [] e = refl
delete_missing m p (n ∷ ns) e = ground (arith, delete_missing m p ns)

pub remove_head : (a : ℕ) (ns : List ℕ) → remove_node a (a ∷ ns) ≡ ns
unfolding remove_node
remove_head a ns = ground arith

pub has_head : (a : ℕ) (ns : List ℕ) → has_node a (a ∷ ns) ≡ true
unfolding has_node
has_head a ns = ground arith

pub has_none : (a : ℕ) → has_node a [] ≡ false
unfolding has_node
has_none a = refl

pub find_none : (m : Memory) (p : ℕ) → find_node m p [] ≡ none
unfolding find_node
find_none m p = refl

pub has_node-remove_node :
    (a b : ℕ) (ns : List ℕ)
    → IsDistinct ns
    → has_node b (remove_node a ns) ≡ (if a == b then false else has_node b ns)
unfolding remove_node has_node
has_node-remove_node a b [] d = ground arith
has_node-remove_node a b (n ∷ ns) (d, ds) = ground (arith, has_node-remove_node a b ns ds)

pub remove_node-IsDistinct : (a : ℕ) (ns : List ℕ) → IsDistinct ns → IsDistinct (remove_node a ns)
unfolding remove_node
remove_node-IsDistinct a [] d = tt
remove_node-IsDistinct a (n ∷ ns) (d, ds) =
    ground (arith, remove_node-IsDistinct a ns ds, has_node-remove_node a n ns ds)

module _ (before : ℕ → ℕ → Bool) (order : IsStrictOrder before) where
  open order use {irrefl}

  find_node-Behind :
      (m : Memory) (x : ℕ) (ns : List ℕ) → Behind before x (map m ns) → find_node m x ns ≡ none
  unfolding find_node
  find_node-Behind m x [] b = refl
  find_node-Behind m x (n ∷ ns) (b, bs) = ground (arith, find_node-Behind m x ns bs, irrefl x)

  pub find_node-remove :
      (m : Memory) (p a r : ℕ) (ns : List ℕ)
      → IsSorted before (map m ns)
      → find_node m p ns ≡ some a
      → find_node m r (remove_node a ns) ≡ (if p == r then none else find_node m r ns)
  unfolding find_node remove_node
  find_node-remove m p a r [] s e = cc
  find_node-remove m p a r (n ∷ ns) (b, s) e =
      ground
        (arith, find_node-remove m p a r ns s, find_node-Behind m r ns, find_node-has_node m p a ns)

  Behind-less :
      (m : Memory) (a n : ℕ) (l : Level) (ns : List ℕ)
      → (n == a) ≡ false
      → has_node a ns ≡ false
      → Behind before (m n).price (map m ns)
      → All (λ y. less before (store m a l) n y ≡ true) ns
  unfolding has_node
  Behind-less m a n l [] e h b = tt
  Behind-less m a n l (y ∷ ns) e h (b, bs) = ground (arith, Behind-less m a n l ns)

  pub IsSorted-IsOrdered :
      (m : Memory) (a : ℕ) (l : Level) (ns : List ℕ)
      → has_node a ns ≡ false
      → IsSorted before (map m ns)
      → IsOrdered (less before (store m a l)) ns
  unfolding has_node
  IsSorted-IsOrdered m a l [] h s = tt
  IsSorted-IsOrdered m a l (n ∷ ns) h (b, s) =
      ground (arith, Behind-less m a n l ns, IsSorted-IsOrdered m a l ns)
