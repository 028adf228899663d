-- ===== src/Orders/Storage/Counts.antt =====
-- How often an id occurs in the storage, before and after an operation, and what a removal undoes.
use cryptobot_algo.Base.{
  ℕ, ◌≡◌, refl, none, [], ◌∷◌, ◌++◌, arith, ◌==◌, if◌then◌else◌, suc, ◌-◌, ◌<◌,
}
use cryptobot_algo.Base.Int.{ℤ}
use cryptobot_algo.Ids.Distinct.{times}
use cryptobot_algo.Orders.{Order, PendingAction}
use cryptobot_algo.Orders.Storage.{
  Storage, get, add, modify, update_status, update_state, remove, with_status, with_state,
}
use cryptobot_algo.Orders.Storage.Maps.{ids}

module _ {C S : Type 0} where
  pub times-none : (j : ℕ) (s : Storage C S) → times j (ids s) ≡ 0 → get j s ≡ none
  unfolding times get
  times-none j [] h = refl
  times-none j (o ∷ s) h = ground (arith, times-none j s)

  pub none-times : (j : ℕ) (s : Storage C S) → get j s ≡ none → times j (ids s) ≡ 0
  unfolding times get
  none-times j [] h = refl
  none-times j (o ∷ s) h = ground (arith, none-times j s)

  times-snoc :
      (j : ℕ) (s : Storage C S) (o : Order C S)
      → times j (ids (s ++ o ∷ []))
        ≡ (if o.order_id == j then suc (times j (ids s)) else times j (ids s))
  unfolding times
  times-snoc j [] o = refl
  times-snoc j (x ∷ s) o = ground (arith, times-snoc j s o)

  pub times-add :
      (j : ℕ) (o : Order C S) (s : Storage C S)
      → get o.order_id s ≡ none
      → times j (ids (add o s))
        ≡ (if o.order_id == j then suc (times j (ids s)) else times j (ids s))
  unfolding add
  times-add j o s h = rw h (times-snoc j s o)

  times-modify :
      (j id : ℕ) (f : Order C S → Order C S)
      → ((o : Order C S) → (f o).order_id ≡ o.order_id)
      → (s : Storage C S) → times j (ids (modify id f s)) ≡ times j (ids s)
  unfolding times modify
  times-modify j id f keep [] = refl
  times-modify j id f keep (o ∷ s) = ground (arith, keep o, times-modify j id f keep s)

  pub times-update :
      (j id : ℕ) (status : S) (action : PendingAction) (price qty : ℤ) (s : Storage C S)
      → (times j (ids (update_status id status action s)) ≡ times j (ids s))
        × (times j (ids (update_state id price qty s)) ≡ times j (ids s))
  unfolding update_status update_state
  times-update j id status action price qty s = (
    times-modify j id (with_status status action) (λ _. refl) s,
    times-modify j id (with_state price qty) (λ _. refl) s,
  )

  pub times-remove :
      (j id : ℕ) (s : Storage C S)
      → 0 < times id (ids s)
      → times j (ids (remove id s)) ≡ (if id == j then times j (ids s) - 1 else times j (ids s))
  unfolding times remove
  times-remove j id [] h = absurd (omega (arith, h))
  times-remove j id (o ∷ s) h = ground (arith, times-remove j id s)

  remove_snoc :
      (o : Order C S) (s : Storage C S)
      → get o.order_id s ≡ none
      → remove o.order_id (s ++ o ∷ []) ≡ s
  unfolding remove get
  remove_snoc o [] h = ground arith
  remove_snoc o (x ∷ s) h = ground (arith, remove_snoc o s)

  -- A storage to which a new order was added is, without it, what it was.
  pub remove-add :
      (o : Order C S) (s : Storage C S) → get o.order_id s ≡ none → remove o.order_id (add o s) ≡ s
  unfolding add
  remove-add o s h = rw h (remove_snoc o s h)

  remove-modify :
      (id : ℕ) (f : Order C S → Order C S)
      → ((o : Order C S) → (f o).order_id ≡ o.order_id)
      → (s : Storage C S) → remove id (modify id f s) ≡ remove id s
  unfolding remove modify
  remove-modify id f keep [] = refl
  remove-modify id f keep (o ∷ s) = ground (arith, keep o, remove-modify id f keep s)

  -- What an order was updated to does not matter once it is removed.
  pub remove-update :
      (id : ℕ) (status : S) (action : PendingAction) (price qty : ℤ) (s : Storage C S)
      → (remove id (update_status id status action s) ≡ remove id s)
        × (remove id (update_state id price qty s) ≡ remove id s)
  unfolding update_status update_state
  remove-update id status action price qty s = (
    remove-modify id (with_status status action) (λ _. refl) s,
    remove-modify id (with_state price qty) (λ _. refl) s,
  )
