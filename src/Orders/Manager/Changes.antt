-- ===== src/Orders/Manager/Changes.antt =====
-- What becomes of an order between its placement and its end.
use cryptobot_algo.Base.{ℕ, suc, ◌^◌, ◌<◌, ◌≡◌, refl, ◌∙◌, none, List, [], ◌∷◌, arith}
use cryptobot_algo.Base.Int.{ℤ, pos}
use cryptobot_algo.Ids.{get_unique_id}
use cryptobot_algo.Orders.{PendingAction, cancel, amend}
use cryptobot_algo.Orders.Storage
use cryptobot_algo.Orders.Storage.Maps.{get-remove}
use cryptobot_algo.Orders.Storage.Counts.{remove-add, remove-update}
use cryptobot_algo.Orders.Manager.{
  Invalid, Manager, Placement, place_order_auto_id, cancel_order, amend_order, placed_order,
  update_status, update_state, remove,
}
use cryptobot_algo.Orders.Manager.Live.{Live, get-get_unique_id, Live-IsUnique}

-- A change of one order: of its status, by an event or a request of the user, or of its price and
-- quantity.
pub data Change (S : Type 0) : Type 0 where
  to_status : S → PendingAction → Change S
  to_state : ℤ → ℤ → Change S
  cancelled amended : Change S

module _ {C S : Type 0} ⦃i : Invalid S⦄ where
  unfoldable pub change : ℕ → Change S → Manager C S → Manager C S
  unfolding cancel_order amend_order
  change id (to_status s action) m = update_status id s action m
  change id (to_state price qty) m = update_state id price qty m
  change id cancelled m = cancel_order id m
  change id amended m = amend_order id m

  unfoldable pub changes : ℕ → List (Change S) → Manager C S → Manager C S
  unfolding change
  changes id [] m = m
  changes id (c ∷ cs) m = changes id cs (change id c m)

  remove-change :
      (id : ℕ) (c : Change S) (m : Manager C S)
      → Storage.remove id (change id c m).storage ≡ Storage.remove id m.storage
  unfolding change update_status update_state cancel_order amend_order
  remove-change id (to_status s action) m = (remove-update id s action (pos 0) (pos 0) m.storage).0
  remove-change id (to_state p q) m = (remove-update id i.invalid cancel p q m.storage).1
  remove-change id cancelled m = (remove-update id i.invalid cancel (pos 0) (pos 0) m.storage).0
  remove-change id amended m = (remove-update id i.invalid amend (pos 0) (pos 0) m.storage).0

  remove-changes :
      (id : ℕ) (cs : List (Change S)) (m : Manager C S)
      → Storage.remove id (changes id cs m).storage ≡ Storage.remove id m.storage
  unfolding changes
  remove-changes id [] m = refl
  remove-changes id (c ∷ cs) m = remove-changes id cs (change id c m) ∙ remove-change id c m

  -- An order that is placed in such a history, is changed any number of times, and then ends leaves
  -- the storage as it was before.
  pub remove-place_order_auto_id :
      {n : ℕ} {m : Manager C S}
      → Live n m
      → suc n < 2 ^ 64
      → (r : Placement C) (cs : List (Change S))
      → let id = (get_unique_id m.uids).0 in
        (remove id (changes id cs (place_order_auto_id r m))).storage ≡ m.storage
  unfolding place_order_auto_id remove
  remove-place_order_auto_id {m = m} l b r cs =
      let id = (get_unique_id m.uids).0 in
      remove-changes id cs (place_order_auto_id r m)
      ∙ remove-add (placed_order r id) m.storage (get-get_unique_id l b)

  -- After a removal no order is stored under the id.
  pub get-remove_self :
      {n : ℕ} {m : Manager C S}
      → Live n m
      → n < 2 ^ 64
      → (id : ℕ) → Storage.get id (remove id m).storage ≡ none
  unfolding remove
  get-remove_self {m = m} l b id =
      rw (get-remove id id m.storage (Live-IsUnique l b)) (ground arith)
