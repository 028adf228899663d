-- ===== src/Orders/Manager/Reissue.antt =====
-- Ids that were returned.
use cryptobot_algo.Base.{ℕ, suc, ◌≡◌, refl, List, [], ◌∷◌, ◌++◌, length, arith, append_assoc}
use cryptobot_algo.Ids.{get_unique_id, return_id_to_pool, issue}
use cryptobot_algo.Orders.Manager.{
  Invalid, Manager, Placement, place_order_auto_id, place_request, remove,
}

-- What happens in between: an order is placed under an id of the manager, or an order ends.
pub data Step (C : Type 0) : Type 0 where
  placing : Placement C → Step C
  ending : ℕ → Step C

abbrev pub placements : {C : Type 0} → List (Step C) → ℕ
placements [] = 0
placements (placing r ∷ l) = suc (placements l)
placements (ending id ∷ l) = placements l

module _ {C S : Type 0} ⦃i : Invalid S⦄ where
  unfoldable pub steps : List (Step C) → Manager C S → Manager C S
  steps [] m = m
  steps (placing r ∷ l) m = steps l (place_order_auto_id r m)
  steps (ending id ∷ l) m = steps l (remove id m)

  -- The queue of returned ids begins with as many ids as orders will be placed, then `id`.
  steps-pool :
      (l : List (Step C)) (m : Manager C S) (front : List ℕ) (id : ℕ) (back : List ℕ)
      → m.uids.pool ≡ front ++ id ∷ back
      → length front ≡ placements l
      → (rest : List ℕ) × ((steps l m).uids.pool ≡ id ∷ rest)
  unfolding steps place_order_auto_id get_unique_id issue remove return_id_to_pool
  steps-pool [] m [] id back e h = (back, e)
  steps-pool [] m (x ∷ front) id back e h = absurd (omega (arith, h))
  steps-pool (placing r ∷ l) m [] id back e h = absurd (omega (arith, h))
  steps-pool (placing r ∷ l) m (x ∷ front) id back e h =
      steps-pool l (place_order_auto_id r m) front id back (rw e refl) (omega (arith, h))
  steps-pool (ending j ∷ l) m front id back e h =
      steps-pool l (remove j m) front id (back ++ j ∷ []) (rw (e, append_assoc) refl) h

  -- The id of an order that ends is not lost: once as many further orders were placed as ids waited
  -- in the pool, whatever other orders ended in between, the next order is placed under it.
  pub steps-place_order_auto_id :
      (m : Manager C S) (id : ℕ) (l : List (Step C)) (r : Placement C)
      → placements l ≡ length m.uids.pool
      → let m' = steps l (remove id m) in
        (place_order_auto_id r m').sent ≡ place_request id r ∷ m'.sent
  unfolding place_order_auto_id get_unique_id issue
  steps-place_order_auto_id m id l r h =
      let (rest, e) =
        steps-pool l (remove id m) m.uids.pool id [] (unfold remove return_id_to_pool in refl)
          (omega (arith, h)) in
      rw e refl
