-- ===== src/Tests/Storages.antt =====
-- Positions of two keys.
use cryptobot_algo.Base.{ℕ, ◌/◌, ◌≡◌, refl, false, none, List, [], ◌∷◌, if◌then◌else◌}
use cryptobot_algo.Base.Int.{ℤ, pos, pos_part, ltb_ℤ, ◌*ℤ◌, ◌+ℤ◌, ◌-ℤ◌}
use cryptobot_algo.Positions.Calculators.{zero_ℤ, neg_ℤ, size_ℤ}
use cryptobot_algo.Positions.Net.{Trade, added, removed}
use cryptobot_algo.Positions.Storage.{
  new_position_storage, get_position, change_positions, remove_position, add_order_qty,
  remove_order_qty, get_order_qty,
}
use cryptobot_algo.Positions.Storage.Own.{own_position, own, get_position-own}
use cryptobot_algo.Base.Maps.{empty}

abbrev pub divide : ℤ → ℤ → ℤ
divide a b =
    let q = pos (pos_part (size_ℤ a) / pos_part (size_ℤ b)) in
    if ltb_ℤ (a *ℤ b) zero_ℤ then neg_ℤ q else q

abbrev changes : List (ℕ × Trade)
changes =
    (4, added (pos 100) (pos 3))
    ∷ (9, added (pos 50) (pos 1))
    ∷ (4, removed (pos 110) (pos 1))
    ∷ (9, removed (pos 60) (pos 1))
    ∷ []

get_position-own_example :
    let s = change_positions divide changes new_position_storage in
    (get_position 9 s ≡ none) × ((remove_position divide 9 (pos 60) (pos 1) s).0 ≡ false)
unfolding own own_position ◌+ℤ◌ ◌-ℤ◌ ◌*ℤ◌
get_position-own_example = get_position-own divide 9 changes (pos 60) (pos 1)

-- More is removed from an order than it holds.
overdrawn :
    get_order_qty 7 (remove_order_qty 7 (pos 5) (add_order_qty 7 (pos 3) empty)).1 ≡ (false, pos 0)
unfolding get_order_qty remove_order_qty add_order_qty ◌+ℤ◌ ◌-ℤ◌
overdrawn = refl
