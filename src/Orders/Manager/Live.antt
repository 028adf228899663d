-- ===== src/Orders/Manager/Live.antt =====
-- Managers that choose all ids themselves and hear of each order's end once.
use cryptobot_algo.Base.{ℕ, suc, ◌^◌, ◌<◌, ◌≡◌, ◌≢◌, refl, none, some, List, [], ◌∷◌, arith}
use cryptobot_algo.Base.Int.{ℤ, pos}
use cryptobot_algo.Ids.{get_unique_id}
use cryptobot_algo.Ids.Distinct.{
  times, take_out, times-take_out, Uses, none_yet, get, give_back, Uses-times,
}
use cryptobot_algo.Orders.{PendingAction, cancel, amend}
use cryptobot_algo.Orders.Storage
use cryptobot_algo.Orders.Storage.Maps.{
  ids, IsUnique, add-IsUnique, remove-IsUnique, update-IsUnique, get-add, get-remove,
}
use cryptobot_algo.Orders.Storage.Counts.{times-none, times-add, times-update, times-remove}
use cryptobot_algo.Orders.Manager.{
  Invalid, Manager, new_manager, Placement, place_order_auto_id, cancel_order, amend_order,
  placed_order, update_status, update_state, remove, place_request,
}

module _ {C S : Type 0} ⦃i : Invalid S⦄ where
  -- A history: orders are placed under ids of the manager, requests are sent for any ids, and the
  -- exchange's events change orders, or end one that is stored. The number counts the orders placed.
  pub data Live : ℕ → Manager C S → Type 0 where
    start : Live 0 new_manager
    placing :
        {n : ℕ} {m : Manager C S}
        → Live n m
        → (r : Placement C) → Live (suc n) (place_order_auto_id r m)
    cancelling : {n : ℕ} {m : Manager C S} → Live n m → (id : ℕ) → Live n (cancel_order id m)
    amending : {n : ℕ} {m : Manager C S} → Live n m → (id : ℕ) → Live n (amend_order id m)
    status :
        {n : ℕ} {m : Manager C S}
        → Live n m
        → (id : ℕ) (s : S) (action : PendingAction) → Live n (update_status id s action m)
    state :
        {n : ℕ} {m : Manager C S}
        → Live n m
        → (id : ℕ) (price qty : ℤ) → Live n (update_state id price qty m)
    ending :
        {n : ℕ} {m : Manager C S}
        → Live n m
        → (id : ℕ) → Storage.get id m.storage ≢ none
        → Live n (remove id m)

  -- The ids of the stored orders are just those that the manager of ids has given out.
  abbrev Holds : ℕ → Manager C S → Type 0
  Holds n m =
      (used : List ℕ) × IsUnique m.storage
      × Uses n used m.uids
      × ((x : ℕ) → times x used ≡ times x (ids m.storage))

  -- An id that is issued is not the id of an order in the storage.
  fresh :
      (n : ℕ) (m : Manager C S)
      → suc n < 2 ^ 64
      → Holds n m
      → Storage.get (get_unique_id m.uids).0 m.storage ≡ none
  unfolding times
  fresh n m b (used, u, r, same) =
      let id = (get_unique_id m.uids).0 in
      times-none id m.storage (ground (arith, (Uses-times (get r) b).0 id, same id))

  placing-Holds :
      (n : ℕ) (m : Manager C S) (r : Placement C)
      → suc n < 2 ^ 64
      → Holds n m
      → Holds (suc n) (place_order_auto_id r m)
  unfolding place_order_auto_id times
  placing-Holds n m r b (used, u, h, same) =
      let id = (get_unique_id m.uids).0 in
      (
        id ∷ used,
        add-IsUnique (placed_order r id) m.storage u,
        get h,
        λ x. ground (
          arith,
          same x,
          times-add x (placed_order r id) m.storage (fresh n m b (used, u, h, same)),
        ),
      )

  ending-Holds :
      (n : ℕ) (m : Manager C S) (id : ℕ)
      → Storage.get id m.storage ≢ none
      → Holds n m
      → Holds n (remove id m)
  unfolding remove
  ending-Holds n m id stored (used, u, h, same) =
      let held : 0 < times id (ids m.storage) = ground (arith, times-none id m.storage) in
      let held' : 0 < times id used = ground (arith, same id) in
      (
        take_out id used,
        remove-IsUnique id m.storage u,
        give_back h id held',
        λ x.
            ground
              (arith, same x, times-take_out x id used held', times-remove x id m.storage held),
      )

  changed-Holds :
      (n : ℕ) (m m' : Manager C S)
      → m'.uids ≡ m.uids
      → IsUnique m'.storage
      → ((x : ℕ) → times x (ids m'.storage) ≡ times x (ids m.storage))
      → Holds n m
      → Holds n m'
  changed-Holds n m m' e u keep (used, _, h, same) =
      (used, u, rw e h, λ x. omega (arith, same x, keep x))

  Live-Holds : {n : ℕ} {m : Manager C S} → Live n m → n < 2 ^ 64 → Holds n m
  unfolding cancel_order amend_order update_status update_state times
  Live-Holds start b = ([], tt, none_yet, λ x. refl)
  Live-Holds (placing {n = n} {m = m} l r) b = placing-Holds n m r b (Live-Holds l (omega arith))
  Live-Holds (cancelling {n = n} {m = m} l id) b =
      let h = Live-Holds l b in
      changed-Holds n m (cancel_order id m) refl
        (update-IsUnique id i.invalid cancel (pos 0) (pos 0) m.storage h.1).0
        (λ x. (times-update x id i.invalid cancel (pos 0) (pos 0) m.storage).0) h
  Live-Holds (amending {n = n} {m = m} l id) b =
      let h = Live-Holds l b in
      changed-Holds n m (amend_order id m) refl
        (update-IsUnique id i.invalid amend (pos 0) (pos 0) m.storage h.1).0
        (λ x. (times-update x id i.invalid amend (pos 0) (pos 0) m.storage).0) h
  Live-Holds (status {n = n} {m = m} l id s a) b =
      let h = Live-Holds l b in
      changed-Holds n m (update_status id s a m) refl
        (update-IsUnique id s a (pos 0) (pos 0) m.storage h.1).0
        (λ x. (times-update x id s a (pos 0) (pos 0) m.storage).0) h
  Live-Holds (state {n = n} {m = m} l id p q) b =
      let h = Live-Holds l b in
      changed-Holds n m (update_state id p q m) refl
        (update-IsUnique id i.invalid cancel p q m.storage h.1).1
        (λ x. (times-update x id i.invalid cancel p q m.storage).1) h
  Live-Holds (ending {n = n} {m = m} l id stored) b = ending-Holds n m id stored (Live-Holds l b)

  -- In a history of fewer than 2^64 placements under the manager's own ids, in which only stored orders
  -- end, an order is placed under an id that no stored order has: it is stored under this id and
  -- the other orders stay, and the request that is sent has this id.
  pub place_order_auto_id-stored :
      {n : ℕ} {m : Manager C S}
      → Live n m
      → suc n < 2 ^ 64
      → (r : Placement C)
      → let m' = place_order_auto_id r m in
        (id : ℕ) × (Storage.get id m.storage ≡ none)
        × (Storage.get id m'.storage ≡ some (placed_order r id))
        × ((j : ℕ) → j ≢ id → Storage.get j m'.storage ≡ Storage.get j m.storage)
        × (m'.sent ≡ place_request id r ∷ m.sent)
  unfolding place_order_auto_id
  place_order_auto_id-stored {n = n} {m = m} l b r =
      let id = (get_unique_id m.uids).0 in
      let new = fresh n m b (Live-Holds l (omega arith)) in
      (
        id,
        new,
        rw (get-add id (placed_order r id) m.storage) (ground (arith, new)),
        λ j other. rw (get-add j (placed_order r id) m.storage) (ground (arith)),
        refl,
      )

  pub get-get_unique_id :
      {n : ℕ} {m : Manager C S}
      → Live n m
      → suc n < 2 ^ 64
      → Storage.get (get_unique_id m.uids).0 m.storage ≡ none
  get-get_unique_id {n = n} {m = m} l b = fresh n m b (Live-Holds l (omega arith))

  pub Live-IsUnique : {n : ℕ} {m : Manager C S} → Live n m → n < 2 ^ 64 → IsUnique m.storage
  Live-IsUnique l b = (Live-Holds l b).1

  -- A removal and nothing else.
  pub removed :
      (id : ℕ) (m : Manager C S)
      → IsUnique m.storage
      → (Storage.get id (remove id m).storage ≡ none)
        × ((j : ℕ) → id ≢ j → Storage.get j (remove id m).storage ≡ Storage.get j m.storage)
  unfolding remove
  removed id m u = (
    ground (arith, get-remove id id m.storage u),
    λ j other. ground (arith, get-remove id j m.storage u),
  )
