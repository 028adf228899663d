-- ===== src/Quantity/Least.antt =====
-- What `Calculate` answers, against the quantities that the exchange accepts.
use cryptobot_algo.Base.{
  ℕ, zero, suc, ◌+◌, ◌-◌, ◌*◌, ◌/◌, ◌≤◌, ◌<◌, ◌≡◌, refl, ◌⊎◌, inl, inr, Bool, true, false, some,
  arith, ◌==◌, ltb, ◌||◌, Bool-cases,
}
use cryptobot_algo.Quantity.{
  OrderFilter, ceil_div, round_up_to_step, is_aligned, raw_qty, checked, calculate,
}
use native.Mathlib.Nat.{
  mul_assoc, mul_comm, mul-le-mul_right, lt-div-mul-add, mul-zero, mul-pos, suc-mul,
  div-mul-le_self, lt_of_mul-lt-mul_right,
}

-- A quantity of `k` steps that passes the filter at the price.
pub record IsAccepted (filter : OrderFilter) (price k : ℕ) : Type 0 where
  pub above_min : filter.min_order_qty ≤ k * filter.base_precission
  pub below_max : k * filter.base_precission ≤ filter.max_order_qty
  pub amount_above_min : filter.min_order_amt ≤ k * filter.base_precission * price
  pub amount_below_max : k * filter.base_precission * price ≤ filter.max_order_amt

le-ceil_div : (a b : ℕ) → 0 < b → a ≤ ceil_div a b * b
unfolding ceil_div
le-ceil_div a b h = omega (arith, lt-div-mul-add {a = a + (b - 1)} {b = b} h)

ceil_div-le : (a b k : ℕ) → 0 < b → a ≤ k * b → ceil_div a b ≤ k
unfolding ceil_div
ceil_div-le a b k h le =
    let q = (a + (b - 1)) / b in
    let below : q * b < suc k * b = omega (arith, div-mul-le_self (a + (b - 1)) b, suc-mul k b) in
    let lt : q < suc k = lt_of_mul-lt-mul_right b below in omega arith

pos_of_lt-mul : (a n p : ℕ) → a < n * p → 0 < p
pos_of_lt-mul a n zero h = omega (arith, h, mul-zero n)
pos_of_lt-mul a n (suc p) h = omega arith

-- The fraction is covered by `k` steps just if they reach the minimal quantity and amount.
abbrev Covered : OrderFilter → ℕ → ℕ → Type 0
Covered filter price k =
    (filter.min_order_qty ≤ k * filter.base_precission)
    × (filter.min_order_amt ≤ k * filter.base_precission * price)

raw_qty-Covered :
    (filter : OrderFilter) (price k : ℕ)
    → let f = raw_qty filter price in
      ((0 < f.denominator)
        → f.numerator ≤ k * (f.denominator * filter.base_precission)
        → Covered filter price k)
      × (Covered filter price k
          → (0 < f.denominator) × (f.numerator ≤ k * (f.denominator * filter.base_precission)))
unfolding raw_qty
raw_qty-Covered filter price k =
    elim (Bool-cases (ltb (filter.min_order_qty * price) filter.min_order_amt)) [
      | inl more ↦ rw more (
          let e : k * (price * filter.base_precission) ≡ k * filter.base_precission * price =
            grind (arith, mul_assoc, mul_comm) in
          (
            (λ pos h. (
              let lt : filter.min_order_qty < k * filter.base_precission =
                    lt_of_mul-lt-mul_right price (ground (arith, e)) in
                  omega arith,
              omega (arith, e),
            )),
            (λ c. (
              pos_of_lt-mul (filter.min_order_qty * price) (k * filter.base_precission) price
                  (ground (arith, e)),
              omega (arith, e),
            )),
          ))
      | inr less ↦ rw less (
          let e : k * (1 * filter.base_precission) ≡ k * filter.base_precission =
            grind (arith, mul_assoc, mul_comm) in
          (
            (λ pos h. (
              omega (arith, e),
              let up = mul-le-mul_right price (
                    let le : filter.min_order_qty ≤ k * filter.base_precission = omega (arith, e) in
                    le) in
                  ground (arith, up),
            )),
            (λ c. (omega arith, omega (arith, e))),
          ))
    ]

abbrev Least : OrderFilter → ℕ → Bool × ℕ → Type 0
Least filter price answer =
    ((k : ℕ) × IsAccepted filter price k
      × (answer ≡ (true, k * filter.base_precission))
      × ((j : ℕ) → IsAccepted filter price j → k ≤ j))
    ⊎ ((answer ≡ (false, 0)) × ((j : ℕ) → IsAccepted filter price j → ⊥))

checked-Least :
    (filter : OrderFilter) (price k : ℕ)
    → Covered filter price k
    → ((j : ℕ) → IsAccepted filter price j → k ≤ j)
    → Least filter price (checked filter price (some (k * filter.base_precission)))
unfolding checked
checked-Least filter price k c least =
    let b = filter.base_precission in
    let mono = λ (j : ℕ) (a : IsAccepted filter price j). mul-le-mul_right b (least j a) in
    elim (Bool-cases (ltb filter.max_order_qty (k * b))) [
      | inl above ↦ rw above (inr (refl, λ j a. ground (arith, mono j a, a.below_max)))
      | inr within ↦
          rw within
            (elim (Bool-cases (
              ltb (k * b * price) filter.min_order_amt
              || ltb filter.max_order_amt (k * b * price))) [
                | inl outside ↦ rw outside (
                    inr (
                      refl,
                      λ j a.
                          ground (arith, c, mul-le-mul_right price (mono j a), a.amount_below_max),
                    ))
                | inr inside ↦ rw inside (
                    inl (
                      k,
                      record {
                        above_min = c.0;
                        below_max = ground arith;
                        amount_above_min = c.1;
                        amount_below_max = ground arith;
                      },
                      refl,
                      least,
                    ))
              ])
    ]

-- In exact arithmetic, which the `double` of the source only approximates: where the precision is not
-- 0 and the price is within the tolerance of a multiple of the tick size, `Calculate` answers the least
-- multiple of the precision that the filter accepts, or false where it accepts none.
pub calculate_least :
    (eps : ℕ) (filter : OrderFilter) (price : ℕ)
    → 0 < filter.base_precission
    → is_aligned eps price filter.tick_size ≡ true
    → ((k : ℕ) × IsAccepted filter price k
        × (calculate eps filter price ≡ (true, k * filter.base_precission))
        × ((j : ℕ) → IsAccepted filter price j → k ≤ j))
      ⊎ ((calculate eps filter price ≡ (false, 0)) × ((j : ℕ) → IsAccepted filter price j → ⊥))
unfolding calculate round_up_to_step
calculate_least eps filter price pos ok =
    let f = raw_qty filter price in
    let b = filter.base_precission in
    let k = ceil_div f.numerator (f.denominator * b) in
    rw ok (elim (Bool-cases (f.denominator == 0)) [
      | inl infinite ↦ rw infinite (
          inr (
            refl,
            λ j a.
                let c = (raw_qty-Covered filter price j).1 (a.above_min, a.amount_above_min) in
                ground (arith, c),
          ))
      | inr finite ↦ rw finite (
          let step : 0 < f.denominator * b = mul-pos (ground arith) pos in
          checked-Least filter price k
            ((raw_qty-Covered filter price k).0 (ground arith)
              (le-ceil_div f.numerator (f.denominator * b) step))
            (λ j a.
              ceil_div-le f.numerator (f.denominator * b) j step
                ((raw_qty-Covered filter price j).1 (a.above_min, a.amount_above_min)).1))
    ])
