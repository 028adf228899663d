-- ===== src/Orders/Storage.antt =====
-- aoe/binance/order_storage/order_storage.h and aoe/bybit/order_storage/order_storage.h, which have
-- the same text: the multi-index container as the list of its orders, the first inserted first. The
-- index by id is unique, so an insertion of an id that is there changes nothing. Where the source
-- returns a pointer to an order the order is returned. The list of `get_by_status` has the orders of
-- the source's, which come in the order in which they got the status.
pub mod Maps
pub mod Counts
use cryptobot_algo.Base.{
  ℕ, Bool, true, false, ◌&&◌, Option, none, some, List, [], ◌∷◌, ◌++◌, ◌==◌, if◌then◌else◌,
}
use cryptobot_algo.Base.Int.{ℤ}
use cryptobot_algo.Orders.{Enum, Side, side_enum, OrderMode, order_mode_enum, PendingAction, Order}

infix 50 ◌same◌
abbrev pub ◌same◌ : {A : Type 0} ⦃e : Enum A⦄ → A → A → Bool
◌same◌ ⦃e⦄ a b = e.value a == e.value b

abbrev pub Storage : Type 0 → Type 0 → Type 0
Storage C S = List (Order C S)

module _ {C S : Type 0} where
  -- The elements of a range that `equal_range` finds.
  unfoldable pub select : (Order C S → Bool) → Storage C S → Storage C S
  select p [] = []
  select p (o ∷ orders) = let rest = select p orders in if p o then o ∷ rest else rest

  unfoldable pub get : ℕ → Storage C S → Option (Order C S)
  get id [] = none
  get id (o ∷ orders) = let rest = get id orders in if o.order_id == id then some o else rest

  unfoldable pub insert_unique : Option (Order C S) → Order C S → Storage C S → Storage C S
  insert_unique none o orders = orders ++ o ∷ []
  insert_unique (some _) o orders = orders

  unfoldable pub add : Order C S → Storage C S → Storage C S
  unfolding insert_unique
  add o orders = insert_unique (get o.order_id orders) o orders

  unfoldable pub emplace : Order C S → Storage C S → Storage C S
  unfolding insert_unique
  emplace o orders = insert_unique (get o.order_id orders) o orders

  -- `index.modify` of the order that `find` finds.
  unfoldable pub modify : ℕ → (Order C S → Order C S) → Storage C S → Storage C S
  modify id f [] = []
  modify id f (o ∷ orders) =
      let rest = modify id f orders in if o.order_id == id then f o ∷ orders else o ∷ rest

  abbrev pub with_status : S → PendingAction → Order C S → Order C S
  with_status status action o = record o { order_status = status; pending_action = action }

  abbrev pub with_state : ℤ → ℤ → Order C S → Order C S
  with_state price qty o = record o { price = price; qty = qty }

  unfoldable pub update_status : ℕ → S → PendingAction → Storage C S → Storage C S
  unfolding modify
  update_status id status action = modify id (with_status status action)

  unfoldable pub update_state : ℕ → ℤ → ℤ → Storage C S → Storage C S
  unfolding modify
  update_state id price qty = modify id (with_state price qty)

  unfoldable pub remove : ℕ → Storage C S → Storage C S
  remove id [] = []
  remove id (o ∷ orders) =
      let rest = remove id orders in if o.order_id == id then orders else o ∷ rest

module _ {C S : Type 0} ⦃ce : Enum C⦄ where
  unfoldable pub get_by_category : C → Storage C S → Storage C S
  unfolding select
  get_by_category category = select (λ o. o.category same category)

  unfoldable pub get_by_category_side : C → Side → Storage C S → Storage C S
  unfolding select
  get_by_category_side category side =
      select (λ o. (o.category same category) && (o.side same side))

  unfoldable pub get_by_category_mode : C → OrderMode → Storage C S → Storage C S
  unfolding select
  get_by_category_mode category mode =
      select (λ o. (o.category same category) && (o.order_mode same mode))

unfoldable pub get_by_status : {C S : Type 0} ⦃se : Enum S⦄ → S → Storage C S → Storage C S
unfolding select
get_by_status status = select (λ o. o.order_status same status)
