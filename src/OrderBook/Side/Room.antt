-- ===== src/OrderBook/Side/Room.antt =====
-- The size given to a pool, and when an allocation fails.
use cryptobot_algo.Base.{zero, suc, refl, List, [], ◌∷◌, ℕ, ◌≡◌, ◌≢◌, Bool, none, some, arith}
use cryptobot_algo.OrderBook.Interfaces.{AvlTree, BoostPool}
use cryptobot_algo.OrderBook.Side.{
  Side, allocate, remove_level, link_level, add_level, clear, clear_loop, nodes,
}

module _ (trees : AvlTree) (pools : BoostPool) where
  pub allocate-none :
      (s : Side trees pools)
      → s.pool_size ≢ 0
      → (allocate trees pools s).0 ≡ none
      → (pools.malloc s.pool).0 ≡ none
  unfolding allocate
  allocate-none s h e = ground arith

  pub remove_level_room :
      (p : ℕ) (s : Side trees pools) → (remove_level trees pools p s).pool_size ≡ s.pool_size
  unfolding remove_level
  remove_level_room p s = ground arith

  pub add_level_room :
      (before : ℕ → ℕ → Bool) (p q : ℕ) (s s' : Side trees pools)
      → add_level trees pools before p q s ≡ some s'
      → s'.pool_size ≡ s.pool_size
  unfolding add_level link_level
  add_level_room before p q s s' e = ground arith

  clear_loop_step :
      (n : ℕ) (s : Side trees pools) (ns : List ℕ)
      → nodes trees pools s ≡ ns
      → ((s' : Side trees pools) → (clear_loop trees pools n s').pool_size ≡ s'.pool_size)
      → (clear_loop trees pools (suc n) s).pool_size ≡ s.pool_size
  unfolding clear_loop
  clear_loop_step n s [] e ih = rw (e, clear_loop) refl
  clear_loop_step n s (a ∷ ns) e ih = rw (e, clear_loop) (ih _)

  clear_loop_room :
      (n : ℕ) (s : Side trees pools) → (clear_loop trees pools n s).pool_size ≡ s.pool_size
  unfolding clear_loop
  clear_loop_room zero s = refl
  clear_loop_room (suc n) s = clear_loop_step n s (nodes trees pools s) refl (clear_loop_room n)

  pub clear_room : (s : Side trees pools) → (clear trees pools s).pool_size ≡ s.pool_size
  unfolding clear
  clear_room s = clear_loop_room _ _
