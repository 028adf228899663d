-- ===== src/OrderBook/Interfaces.antt =====
-- What the order book uses of other libraries: `boost::intrusive::avltree` and `boost::pool`. Nodes
-- are addresses. Each interface states the documented behaviour of the operations that are called.
use cryptobot_algo.Base.{
  ℕ, ◌≡◌, Bool, true, false, Option, some, List, [], ◌∷◌, ◌==◌, if◌then◌else◌, All,
}

-- The nodes `n` and `x` are placed by `less`; an equivalent node is not inserted.
unfoldable pub insert_node : (ℕ → ℕ → Bool) → ℕ → List ℕ → List ℕ
insert_node less n [] = n ∷ []
insert_node less n (x ∷ xs) =
    if less n x then n ∷ x ∷ xs else if less x n then x ∷ insert_node less n xs else x ∷ xs

unfoldable pub remove_node : ℕ → List ℕ → List ℕ
remove_node n [] = []
remove_node n (x ∷ xs) = if x == n then xs else x ∷ remove_node n xs

unfoldable pub has_node : ℕ → List ℕ → Bool
has_node n [] = false
has_node n (x ∷ xs) = if x == n then true else has_node n xs

abbrev pub IsOrdered : (ℕ → ℕ → Bool) → List ℕ → Type 0
IsOrdered less [] = Unit
IsOrdered less (x ∷ xs) = All (λ y. less x y ≡ true) xs × IsOrdered less xs

-- `to_list` is the iteration from `begin()` to `end()`.
pub record AvlTree : Type 1 where
  pub Tree : Type 0
  pub empty : Tree
  pub to_list : Tree → List ℕ
  pub insert_unique : (ℕ → ℕ → Bool) → ℕ → Tree → Tree
  pub erase : ℕ → Tree → Tree
  pub to_list-empty : to_list empty ≡ []
  pub to_list-insert_unique :
      (less : ℕ → ℕ → Bool) (n : ℕ) (t : Tree)
      → IsOrdered less (to_list t)
      → to_list (insert_unique less n t) ≡ insert_node less n (to_list t)
  pub to_list-erase :
      (n : ℕ) (t : Tree)
      → has_node n (to_list t) ≡ true
      → to_list (erase n t) ≡ remove_node n (to_list t)

-- `malloc` answers a block that is not in use, or no block; `free` gives one back.
pub record BoostPool : Type 1 where
  pub Pool : Type 0
  pub fresh : Pool
  pub malloc : Pool → Option ℕ × Pool
  pub free : ℕ → Pool → Pool
  pub used : Pool → ℕ → Bool
  pub used-fresh : (b : ℕ) → used fresh b ≡ false
  pub malloc_unused : (p : Pool) (a : ℕ) → (malloc p).0 ≡ some a → used p a ≡ false
  pub used-malloc :
      (p : Pool) (a b : ℕ)
      → (malloc p).0 ≡ some a
      → used (malloc p).1 b ≡ (if a == b then true else used p b)
  pub used-free : (p : Pool) (a b : ℕ) → used (free a p) b ≡ (if a == b then false else used p b)
