-- ===== src/Quantity.antt =====
-- aoe/bybit/order_min_qty_calculator/calculator.h, `spot::OrderMinQtyCalculator`, and the fields of
-- aoe/bybit/order_filter/i_order_filter.h that it reads, in exact arithmetic: prices, quantities and
-- amounts are natural numbers of units, and a unit of amount is a unit of price times one of quantity.
-- The source instantiates it with `double`, whose quotients and products are rounded; that is not
-- modelled. `eps` is the tolerance of a price's distance to a multiple of the tick size. A quotient is a
-- fraction. A fraction with the denominator 0 is infinite. The precision of the quantity is not 0.
pub mod Least
use cryptobot_algo.Base.{
  ℕ, min, ◌+◌, ◌-◌, ◌*◌, ◌/◌, ◌%◌, Bool, true, false, not, ◌||◌, Option, none, some, ◌==◌, ltb,
  if◌then◌else◌,
}

pub record OrderFilter : Type 0 where
  pub min_order_qty : ℕ
  pub max_order_qty : ℕ
  pub min_order_amt : ℕ
  pub max_order_amt : ℕ
  pub base_precission : ℕ
  pub tick_size : ℕ

pub record Fraction : Type 0 where
  pub numerator : ℕ
  pub denominator : ℕ

unfoldable pub ceil_div : ℕ → ℕ → ℕ
ceil_div a b = (a + (b - 1)) / b

-- `none` is infinity.
unfoldable pub round_up_to_step : Fraction → ℕ → Option ℕ
unfolding ceil_div
round_up_to_step f step =
    if f.denominator == 0 then none else some (ceil_div f.numerator (f.denominator * step) * step)

-- The distance to the nearest multiple, below or above.
unfoldable pub distance : ℕ → ℕ → ℕ
distance value step = min (value % step) (step - value % step)

-- A multiple of the tick size 0 is no number, and not close to anything.
unfoldable pub is_aligned : ℕ → ℕ → ℕ → Bool
unfolding distance
is_aligned eps value step = if step == 0 then false else ltb (distance value step) eps

-- The larger of the minimal quantity and of the minimal amount over the price. At the price 0 and the
-- minimal amount 0 the quotient is no number, and the minimal quantity is taken.
unfoldable pub raw_qty : OrderFilter → ℕ → Fraction
raw_qty filter price =
    if ltb (filter.min_order_qty * price) filter.min_order_amt
    then record { numerator = filter.min_order_amt; denominator = price }
    else record { numerator = filter.min_order_qty; denominator = 1 }

-- The test of the maximal quantity and of the amounts.
unfoldable pub checked : OrderFilter → ℕ → Option ℕ → Bool × ℕ
checked filter price none = (false, 0)
checked filter price (some stepped_qty) =
    let notional = stepped_qty * price in
    if ltb filter.max_order_qty stepped_qty
    then (false, 0)
    else if ltb notional filter.min_order_amt || ltb filter.max_order_amt notional
    then (false, 0)
    else (true, stepped_qty)

unfoldable pub calculate : ℕ → OrderFilter → ℕ → Bool × ℕ
unfolding is_aligned raw_qty round_up_to_step checked
calculate eps filter price =
    if not (is_aligned eps price filter.tick_size)
    then (false, 0)
    else checked filter price (round_up_to_step (raw_qty filter price) filter.base_precission)
