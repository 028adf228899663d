-- ===== src/Orders/Storage/Maps.antt =====
-- The storage of orders as a map from ids to orders.
use cryptobot_algo.Base.{
  ℕ, ◌≡◌, ◌≢◌, refl, none, some, List, [], ◌∷◌, ◌++◌, arith, ◌==◌, Bool-cases, Option-cases,
  if◌then◌else◌, inl, inr,
}
use cryptobot_algo.Base.Int.{ℤ}
use cryptobot_algo.Base.Maps.{contains}
use cryptobot_algo.Orders.{Order, PendingAction}
use cryptobot_algo.Orders.Storage.{
  Storage, get, add, modify, update_status, update_state, remove, with_status, with_state,
}
use mathlib.Core.Option

module _ {C S : Type 0} where
  abbrev pub ids : Storage C S → List ℕ
  ids [] = []
  ids (o ∷ orders) = o.order_id ∷ ids orders

  -- No two orders have the same id.
  abbrev pub IsUnique : Storage C S → Type 0
  IsUnique [] = Unit
  IsUnique (o ∷ orders) = (get o.order_id orders ≡ none) × IsUnique orders

  get-append :
      (id : ℕ) (xs ys : Storage C S)
      → get id (xs ++ ys) ≡ elim (get id xs) [ none ↦ get id ys | some o ↦ some o ]
  unfolding get
  get-append id [] ys = refl
  get-append id (x ∷ xs) ys = ground (arith, get-append id xs ys)

  get-modify :
      (id j : ℕ) (f : Order C S → Order C S)
      → ((o : Order C S) → (f o).order_id ≡ o.order_id)
      → (s : Storage C S)
      → get j (modify id f s) ≡ (if id == j then Option.map f (get j s) else get j s)
  unfolding get modify
  get-modify id j f keep [] = ground arith
  get-modify id j f keep (o ∷ s) = ground (arith, keep o, get-modify id j f keep s)

  pub get-remove :
      (id j : ℕ) (s : Storage C S)
      → IsUnique s
      → get j (remove id s) ≡ (if id == j then none else get j s)
  unfolding get remove
  get-remove id j [] u = ground arith
  get-remove id j (o ∷ s) u = ground (arith, get-remove id j s)

  pub get-add :
      (j : ℕ) (o : Order C S) (s : Storage C S)
      → get j (add o s)
        ≡ elim (get j s) [ none ↦ if o.order_id == j then some o else none | some x ↦ some x ]
  unfolding add get
  get-add j o s = elim (Option-cases (get o.order_id s)) [
    | inl new ↦ rw new (ground (arith, get-append j s (o ∷ []), new))
    | inr (x, old) ↦ rw old (ground (arith, old))
  ]

  append-IsUnique :
      (s : Storage C S) (o : Order C S)
      → get o.order_id s ≡ none
      → IsUnique s
      → IsUnique (s ++ o ∷ [])
  unfolding get
  append-IsUnique [] o h u = (refl, tt)
  append-IsUnique (x ∷ s) o h u =
      (ground (arith, get-append x.order_id s (o ∷ [])), append-IsUnique s o (ground arith) u.1)

  pub add-IsUnique : (o : Order C S) (s : Storage C S) → IsUnique s → IsUnique (add o s)
  unfolding add
  add-IsUnique o s u = elim (Option-cases (get o.order_id s)) [
    | inl new ↦ rw new (append-IsUnique s o new u)
    | inr (x, old) ↦ rw old u
  ]

  modify-IsUnique :
      (id : ℕ) (f : Order C S → Order C S)
      → ((o : Order C S) → (f o).order_id ≡ o.order_id)
      → (s : Storage C S) → IsUnique s
      → IsUnique (modify id f s)
  unfolding modify
  modify-IsUnique id f keep [] u = tt
  modify-IsUnique id f keep (o ∷ s) u = elim (Bool-cases (o.order_id == id)) [
    | inl e ↦ rw e (rw (keep o) u.0, u.1)
    | inr e ↦ rw e (
      rw (get-modify id o.order_id f keep s) (ground (arith, u.0)),
      modify-IsUnique id f keep s u.1,
    )
  ]

  pub update-IsUnique :
      (id : ℕ) (status : S) (action : PendingAction) (price qty : ℤ) (s : Storage C S)
      → IsUnique s
      → IsUnique (update_status id status action s) × IsUnique (update_state id price qty s)
  unfolding update_status update_state
  update-IsUnique id status action price qty s u = (
    modify-IsUnique id (with_status status action) (λ _. refl) s u,
    modify-IsUnique id (with_state price qty) (λ _. refl) s u,
  )

  pub remove-IsUnique : (id : ℕ) (s : Storage C S) → IsUnique s → IsUnique (remove id s)
  unfolding remove
  remove-IsUnique id [] u = tt
  remove-IsUnique id (o ∷ s) u = elim (Bool-cases (o.order_id == id)) [
    | inl e ↦ rw e u.1
    | inr e ↦
        rw e (rw (get-remove id o.order_id s u.1) (ground (arith, u.0)), remove-IsUnique id s u.1)
  ]

  -- Which orders are stored, and what the others than the one with the id are.
  abbrev pub Keeps : ℕ → Storage C S → Storage C S → Type 0
  Keeps id s s' =
      ((j : ℕ) → contains (get j s') ≡ contains (get j s)) × ((j : ℕ) → id ≢ j → get j s' ≡ get j s)

  modify-Keeps :
      (id : ℕ) (f : Order C S → Order C S)
      → ((o : Order C S) → (f o).order_id ≡ o.order_id)
      → (s : Storage C S) → Keeps id s (modify id f s)
  modify-Keeps id f keep s = (
    λ j. elim (Option-cases (get j s)) [
      | inl e ↦ ground (arith, get-modify id j f keep s, e)
      | inr (o, e) ↦ ground (arith, get-modify id j f keep s, e)
    ],
    λ j other. ground (arith, get-modify id j f keep s),
  )

  pub update-Keeps :
      (id : ℕ) (status : S) (action : PendingAction) (price qty : ℤ) (s : Storage C S)
      → Keeps id s (update_status id status action s) × Keeps id s (update_state id price qty s)
  unfolding update_status update_state
  update-Keeps id status action price qty s = (
    modify-Keeps id (with_status status action) (λ _. refl) s,
    modify-Keeps id (with_state price qty) (λ _. refl) s,
  )
