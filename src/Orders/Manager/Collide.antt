-- ===== src/Orders/Manager/Collide.antt =====
-- Ids that the user chooses, and those of the manager of ids.
use cryptobot_algo.Base.{ℕ, ◌+◌, ◌%◌, ◌^◌, ◌<◌, ◌≡◌, refl, ◌∙◌, some, List, [], ◌∷◌, length, arith}
use cryptobot_algo.Ids.{new_uid_manager, get_unique_id, issue}
use cryptobot_algo.Orders.{Order}
use cryptobot_algo.Orders.Storage
use cryptobot_algo.Orders.Storage.Maps.{get-add}
use cryptobot_algo.Orders.Manager.{
  Invalid, Manager, new_manager, Placement, placed_order, place_order_auto_id,
  place_order_manual_id, place_request, add,
}

module _ {C S : Type 0} ⦃i : Invalid S⦄ where
  unfoldable pub place_all : List (Placement C) → Manager C S → Manager C S
  unfolding place_order_auto_id
  place_all [] m = m
  place_all (r ∷ rs) m = place_all rs (place_order_auto_id r m)

  -- With no id in the pool the ids count up, and an order that is stored stays.
  place_all-current :
      (rs : List (Placement C)) (m : Manager C S)
      → m.uids.pool ≡ []
      → m.uids.current_id + length rs < 2 ^ 64
      → ((place_all rs m).uids.pool ≡ [])
        × ((place_all rs m).uids.current_id ≡ m.uids.current_id + length rs)
  unfolding place_all get_unique_id issue
  place_all-current [] m e b = (e, omega arith)
  place_all-current (r ∷ rs) m e b =
      let next : (m.uids.current_id + 1) % 2 ^ 64 ≡ m.uids.current_id + 1 = omega (arith, b) in
      ground (arith, e, next, place_all-current rs (place_order_auto_id r m))

  place-get :
      (r : Placement C) (m : Manager C S) (id : ℕ) (o : Order C S)
      → Storage.get id m.storage ≡ some o
      → Storage.get id (place_order_auto_id r m).storage ≡ some o
  unfolding place_order_auto_id
  place-get r m id o e =
      rw (get-add id (placed_order r (get_unique_id m.uids).0) m.storage) (rw e refl)

  place_all-get :
      (rs : List (Placement C)) (m : Manager C S) (id : ℕ) (o : Order C S)
      → Storage.get id m.storage ≡ some o
      → Storage.get id (place_all rs m).storage ≡ some o
  unfolding place_all
  place_all-get [] m id o e = e
  place_all-get (r ∷ rs) m id o e =
      place_all-get rs (place_order_auto_id r m) id o (place-get r m id o e)

  manual_state :
      (k : ℕ) (r : Placement C)
      → let m : Manager C S = place_order_manual_id r k new_manager in
        (m.uids ≡ new_uid_manager) × (Storage.get k m.storage ≡ some (placed_order r k))
  unfolding place_order_manual_id add Storage.add Storage.insert_unique Storage.get
  manual_state k r = (refl, ground arith)

  -- An order that is placed under an id of the user's choice, `k`, and then `k` orders under ids of a
  -- new manager: the next order is sent to the exchange under the id `k` too, although the first order
  -- is still stored under it, and the new order is not stored.
  pub place_order_manual_id-collides :
      (k : ℕ) (r : Placement C) (rs : List (Placement C)) (r' : Placement C)
      → k < 2 ^ 64
      → length rs ≡ k
      → let m : Manager C S = place_all rs (place_order_manual_id r k new_manager) in
        let m' = place_order_auto_id r' m in
        (Storage.get k m.storage ≡ some (placed_order r k))
        × (m'.sent ≡ place_request k r' ∷ m.sent)
        × (m'.storage ≡ m.storage)
  unfolding place_order_auto_id get_unique_id issue Storage.add Storage.insert_unique
  place_order_manual_id-collides k r rs r' b h =
      let m0 : Manager C S = place_order_manual_id r k new_manager in
      let (fresh, own) = manual_state k r in
      let (empty, next) = place_all-current rs m0 (rw fresh refl) (rw fresh (omega (arith, h))) in
      let stored = place_all-get rs m0 k (placed_order r k) own in
      let next' : (place_all rs m0).uids.current_id ≡ k = next ∙ rw fresh (omega (arith, h)) in
      (stored, rw (empty, next') refl, rw (empty, next', stored) refl)
