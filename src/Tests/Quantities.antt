-- ===== src/Tests/Quantities.antt =====
-- A filter with steps of 2 and ticks of 5, and no tolerance.
use cryptobot_algo.Base.{ℕ, ◌*◌, ◌≤◌, ◌≡◌, refl, ◌⊎◌, true, false, arith}
use cryptobot_algo.Quantity.{OrderFilter, calculate, is_aligned, distance}
use cryptobot_algo.Quantity.Least.{IsAccepted, calculate_least}

abbrev filter : OrderFilter
filter = record {
  min_order_qty = 5;
  max_order_qty = 1000;
  min_order_amt = 100;
  max_order_amt = 10000;
  base_precission = 2;
  tick_size = 5;
}

calculate_least_example :
    ((k : ℕ) × IsAccepted filter 15 k
      × (calculate 1 filter 15 ≡ (true, k * 2))
      × ((j : ℕ) → IsAccepted filter 15 j → k ≤ j))
    ⊎ ((calculate 1 filter 15 ≡ (false, 0)) × ((j : ℕ) → IsAccepted filter 15 j → ⊥))
unfolding is_aligned distance
calculate_least_example = calculate_least 1 filter 15 (omega arith) refl

-- 100 / 15 is rounded up to 4 steps, and 16 is no multiple of the tick size.
calculate_fifteen : calculate 1 filter 15 ≡ (true, 8)
unfolding calculate
calculate_fifteen = refl

calculate_unaligned : calculate 1 filter 16 ≡ (false, 0)
unfolding calculate
calculate_unaligned = refl
