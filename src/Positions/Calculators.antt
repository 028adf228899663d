-- ===== src/Positions/Calculators.antt =====
-- aos/pnl/realized_calculator and aos/pnl/unrealized_calculator.
use cryptobot_algo.Base.{ℕ, ◌+◌, ◌≡◌, refl, if◌then◌else◌, arith, Bool-cases, inl, inr}
use cryptobot_algo.Base.Int.{ℤ, pos, pos_part, neg_part, sub_ℕ, ltb_ℤ, ◌-ℤ◌, ◌*ℤ◌}

abbrev pub zero_ℤ : ℤ
zero_ℤ = pos 0

abbrev pub neg_ℤ : ℤ → ℤ
neg_ℤ a = zero_ℤ -ℤ a

abbrev pub size_ℤ : ℤ → ℤ
size_ℤ a = pos (pos_part a + neg_part a)

abbrev pub min_ℤ : ℤ → ℤ → ℤ
min_ℤ a b = if ltb_ℤ b a then b else a

-- `std::min(std::abs(net_qty), std::abs(qty))`, with the sign of `qty`.
abbrev pub closed_qty : ℤ → ℤ → ℤ
closed_qty net_qty qty =
    let least = min_ℤ (size_ℤ net_qty) (size_ℤ qty) in
    if ltb_ℤ qty zero_ℤ then neg_ℤ least else least

-- `RealizedPnlCalculator::Calculate`.
unfoldable pub calculate_realized : ℤ → ℤ → ℤ → ℤ → ℤ
calculate_realized avg_price net_qty price qty = closed_qty net_qty qty *ℤ (price -ℤ avg_price)

-- `UnRealizedPnlCalculator::Calculate`.
unfoldable pub calculate_unrealized : ℤ → ℤ → ℤ → ℤ → ℤ
calculate_unrealized avg_price net_qty bid ask =
    let is_long = ltb_ℤ zero_ℤ net_qty in
    let abs_qty = if is_long then net_qty else neg_ℤ net_qty in
    let market_price = if is_long then bid else ask in
    let price_diff = if is_long then market_price -ℤ avg_price else avg_price -ℤ market_price in
    price_diff *ℤ abs_qty

-- The price at which a position is closed: a long one is sold to the best bid, a short one is bought
-- back from the best ask.
abbrev pub close_price : ℤ → ℤ → ℤ → ℤ
close_price net_qty bid ask = if ltb_ℤ zero_ℤ net_qty then bid else ask

swap_parts :
    (a b : ℤ) → (pos_part (a -ℤ b) ≡ neg_part (b -ℤ a)) × (neg_part (a -ℤ b) ≡ pos_part (b -ℤ a))
unfolding ◌-ℤ◌
swap_parts a b = ground arith

pub neg_parts : (a : ℤ) → (pos_part (neg_ℤ a) ≡ neg_part a) × (neg_part (neg_ℤ a) ≡ pos_part a)
unfolding ◌-ℤ◌
neg_parts a = ground arith

pub sub_ℕ_comm : (a b c d : ℕ) → sub_ℕ (a + b) (c + d) ≡ sub_ℕ (b + a) (d + c)
sub_ℕ_comm a b c d =
    let left : a + b ≡ b + a = omega arith in
    let right : c + d ≡ d + c = omega arith in rw (left, right) refl

-- A product in which both factors change their sign.
pub neg_neg : (a b q : ℤ) → (a -ℤ b) *ℤ neg_ℤ q ≡ (b -ℤ a) *ℤ q
unfolding ◌*ℤ◌
neg_neg a b q =
    let s = swap_parts a b in let n = neg_parts q in rw (s.0, s.1, n.0, n.1) (sub_ℕ_comm _ _ _ _)

-- The unrealized profit is what closing the position earns, per unit of its signed quantity, beyond
-- the average price.
pub calculate_unrealized-close_price :
    (avg_price net_qty bid ask : ℤ)
    → calculate_unrealized avg_price net_qty bid ask
      ≡ (close_price net_qty bid ask -ℤ avg_price) *ℤ net_qty
unfolding calculate_unrealized
calculate_unrealized-close_price avg_price net_qty bid ask =
    elim (Bool-cases (ltb_ℤ zero_ℤ net_qty)) [
      | inl long ↦ rw long refl
      | inr short ↦ rw short (neg_neg avg_price ask net_qty)
    ]

-- The pooled classes have the same text.
abbrev pub pooled_calculate_realized : ℤ → ℤ → ℤ → ℤ → ℤ
pooled_calculate_realized = calculate_realized

abbrev pub pooled_calculate_unrealized : ℤ → ℤ → ℤ → ℤ → ℤ
pooled_calculate_unrealized = calculate_unrealized
