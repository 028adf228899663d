-- ===== src/Positions/Storage.antt =====
-- aos/position_storage/position_storage_by_pair/position_storage_by_pair.h, with net positions, and
-- aos/position_storage/position_storage_by_order_id/position_storage_by_order_id.h. A key stands for an
-- exchange and a trading pair, or for these and an order id. The strategy that the positions share
-- owns the two storages of profits, so they are parts of the state.
pub mod Own
use cryptobot_algo.Base.{ℕ, Bool, true, false, Option, none, some, List, [], ◌∷◌, if◌then◌else◌}
use cryptobot_algo.Base.Int.{ℤ, ◌+ℤ◌, ◌-ℤ◌, eqb_ℤ, ltb_ℤ}
use cryptobot_algo.Base.Maps.{Map, empty, insert, erase, get_or}
use cryptobot_algo.Positions.Calculators.{zero_ℤ}
use cryptobot_algo.Positions.Unrealized.{PositionInfo, UnrealizedStorage, new_unrealized}
use cryptobot_algo.Positions.Net.{Account, add, remove, Trade, added, removed}

pub record PositionStorage : Type 0 where
  pub storage_position : Map PositionInfo
  pub realized_pnl : Map ℤ
  pub unrealized : UnrealizedStorage

abbrev pub new_position_storage : PositionStorage
new_position_storage = record {
  storage_position = empty;
  realized_pnl = empty;
  unrealized = new_unrealized;
}

-- What the factory makes.
abbrev pub flat : PositionInfo
flat = record { avg_price = zero_ℤ; net_qty = zero_ℤ }

-- A position with the storages of its strategy.
abbrev pub account : PositionInfo → PositionStorage → Account
account p s = record {
  avg_price = p.avg_price;
  net_qty = p.net_qty;
  realized_pnl = s.realized_pnl;
  unrealized = s.unrealized;
}

-- The position that an operation on it left, written back.
abbrev pub store : ℕ → Account → PositionStorage → PositionStorage
store key a s = record {
  storage_position =
      insert key (record { avg_price = a.avg_price; net_qty = a.net_qty }) s.storage_position;
  realized_pnl = a.realized_pnl;
  unrealized = a.unrealized;
}

abbrev pub is_empty : Account → Bool
is_empty a = eqb_ℤ a.net_qty zero_ℤ

unfoldable pub get_position : ℕ → PositionStorage → Option PositionInfo
get_position key s = s.storage_position key

-- The deprecated class answers with the quantity.
unfoldable pub deprecated_get_position : ℕ → PositionStorage → Bool × ℤ
deprecated_get_position key s = elim (s.storage_position key) [
  | none ↦ (false, zero_ℤ)
  | some p ↦ (true, p.net_qty)
]

module _ (quot : ℤ → ℤ → ℤ) where
  unfoldable pub add_position : ℕ → ℤ → ℤ → PositionStorage → PositionStorage
  add_position key price qty s =
      store key (add quot key price qty (account (get_or flat (s.storage_position key)) s)) s

  -- `RemovePosition` of a position that is there, and the erasure of one that became empty.
  unfoldable pub reduce : ℕ → ℤ → ℤ → PositionInfo → PositionStorage → PositionStorage
  reduce key price qty p s =
      let a = remove quot key price qty (account p s) in
      let s' = store key a s in
      if is_empty a then record s' { storage_position = erase key s'.storage_position } else s'

  unfoldable pub remove_position : ℕ → ℤ → ℤ → PositionStorage → Bool × PositionStorage
  unfolding reduce
  remove_position key price qty s = elim (s.storage_position key) [
    | none ↦ (false, s)
    | some p ↦ (true, reduce key price qty p s)
  ]

  -- The deprecated class makes a position where there is none.
  unfoldable pub deprecated_remove_position : ℕ → ℤ → ℤ → PositionStorage → Bool × PositionStorage
  unfolding reduce
  deprecated_remove_position key price qty s =
      (true, reduce key price qty (get_or flat (s.storage_position key)) s)

  abbrev pub deprecated_add_position : ℕ → ℤ → ℤ → PositionStorage → PositionStorage
  deprecated_add_position = add_position

  -- A change of the position of a key.
  unfoldable pub change_position : ℕ → Trade → PositionStorage → PositionStorage
  unfolding add_position remove_position
  change_position key (added price qty) s = add_position key price qty s
  change_position key (removed price qty) s = (remove_position key price qty s).1

  unfoldable pub change_positions : List (ℕ × Trade) → PositionStorage → PositionStorage
  unfolding change_position
  change_positions [] s = s
  change_positions ((key, t) ∷ ts) s = change_positions ts (change_position key t s)

-- The quantities of single orders.
abbrev pub QtyStorage : Type 0
QtyStorage = Map ℤ

unfoldable pub get_order_qty : ℕ → QtyStorage → Bool × ℤ
get_order_qty key m = elim (m key) [ none ↦ (false, zero_ℤ) | some qty ↦ (true, qty) ]

unfoldable pub add_order_qty : ℕ → ℤ → QtyStorage → QtyStorage
add_order_qty key qty m = insert key (get_or zero_ℤ (m key) +ℤ qty) m

unfoldable pub remove_order_qty : ℕ → ℤ → QtyStorage → Bool × QtyStorage
remove_order_qty key qty m = elim (m key) [
  | none ↦ (true, m)
  | some held ↦
      if eqb_ℤ (held -ℤ qty) zero_ℤ
      then (true, erase key m)
      else if ltb_ℤ (held -ℤ qty) zero_ℤ
      then (true, erase key m)
      else (true, insert key (held -ℤ qty) m)
]

-- The template has the same text.
abbrev pub template_get_order_qty : ℕ → QtyStorage → Bool × ℤ
template_get_order_qty = get_order_qty

abbrev pub template_add_order_qty : ℕ → ℤ → QtyStorage → QtyStorage
template_add_order_qty = add_order_qty

abbrev pub template_remove_order_qty : ℕ → ℤ → QtyStorage → Bool × QtyStorage
template_remove_order_qty = remove_order_qty
