-- ===== src/Trackers/Average.antt =====
-- aos/avg_tracker/avg_tracker.h and aos/deviation_tracker/deviation_tracker.h. Values are whole
-- numbers; what they are divided by is the arithmetic of the value type, which the parameter `quot`
-- stands for.
pub mod Sums
use cryptobot_algo.Base.{
  ℕ, ◌+◌, ◌-◌, ◌%◌, ◌^◌, ◌≡◌, Bool, true, false, Option, none, some, ◌==◌, if◌then◌else◌, arith,
}
use cryptobot_algo.Base.Int.{ℤ, pos, pos_part, neg_part, ◌+ℤ◌, ◌-ℤ◌, ◌*ℤ◌, eqb_ℤ, ltb_ℤ}
use cryptobot_algo.Base.Maps.{Map, empty, insert, get_or}

pub record AvgTracker : Type 0 where
  pub sums : Map ℤ
  pub counts : Map ℕ

abbrev pub new_avg : AvgTracker
new_avg = record { sums = empty; counts = empty }

-- `+= 1` and `-= 1` on `size_t`.
abbrev pub count_up : ℕ → ℕ
count_up c = (c + 1) % 2 ^ 64

abbrev pub count_down : ℕ → ℕ
count_down c = (c + (2 ^ 64 - 1)) % 2 ^ 64

abbrev pub sum_of : ℕ → AvgTracker → ℤ
sum_of h t = get_or (pos 0) (t.sums h)

abbrev pub count_of : ℕ → AvgTracker → ℕ
count_of h t = get_or 0 (t.counts h)

pub avg_on_add : ℕ → ℤ → AvgTracker → AvgTracker
avg_on_add h v t = record {
  sums = insert h (sum_of h t +ℤ v) t.sums;
  counts = insert h (count_up (count_of h t)) t.counts;
}

pub avg_on_remove : ℕ → ℤ → AvgTracker → AvgTracker
avg_on_remove h v t = record {
  sums = insert h (sum_of h t -ℤ v) t.sums;
  counts = insert h (count_down (count_of h t)) t.counts;
}

-- `GetAvg`, with `{false, T{}}` as `none`.
pub get_avg : (ℤ → ℕ → ℤ) → ℕ → AvgTracker → Option ℤ
get_avg quot h t = elim (t.counts h) [
  | none ↦ none
  | some c ↦ if c == 0 then none else some (quot (sum_of h t) c)
]

abbrev pub abs_ℤ : ℤ → ℤ
abs_ℤ a = pos (pos_part a + neg_part a)

-- aos/deviation_tracker/deviation_tracker.h; `ratio` divides two values.
module _ (quot : ℤ → ℕ → ℤ) (ratio : ℤ → ℤ → ℤ) where
  -- The answer from the average of the asset, if it has one.
  abbrev pub from_avg : ℕ → AvgTracker → (ℤ → Option ℤ) → Option ℤ
  from_avg h t f = elim (get_avg quot h t) [ none ↦ none | some avg ↦ f avg ]

  abbrev pub unless_zero : ℤ → ℤ → Option ℤ
  unless_zero avg r = if eqb_ℤ avg (pos 0) then none else some r

  pub get_deviation : ℕ → ℤ → AvgTracker → Option ℤ
  get_deviation h v t = from_avg h t (λ avg. some (v -ℤ avg))

  pub get_deviation_ratio : ℕ → ℤ → AvgTracker → Option ℤ
  get_deviation_ratio h v t = from_avg h t (λ avg. unless_zero avg (ratio (v -ℤ avg) avg))

  pub get_deviation_percent : ℕ → ℤ → AvgTracker → Option ℤ
  get_deviation_percent h v t =
      from_avg h t (λ avg. unless_zero avg (ratio (v -ℤ avg) avg *ℤ pos 100))

  pub get_deviation_ratio_abs : ℕ → ℤ → AvgTracker → Option ℤ
  get_deviation_ratio_abs h v t =
      from_avg h t (λ avg. unless_zero avg (ratio (abs_ℤ (v -ℤ avg)) (abs_ℤ avg)))

  pub get_deviation_percent_abs : ℕ → ℤ → AvgTracker → Option ℤ
  get_deviation_percent_abs h v t =
      from_avg h t (λ avg. unless_zero avg (ratio (abs_ℤ (v -ℤ avg)) (abs_ℤ avg) *ℤ pos 100))

  -- The answer for the threshold that is given; the deviation is divided by the signed average.
  pub is_deviation_ratio_above_threshold : ℕ → ℤ → ℤ → AvgTracker → Option Bool
  is_deviation_ratio_above_threshold h v given_threshold t = elim (get_avg quot h t) [
    | none ↦ none
    | some avg ↦
        if eqb_ℤ avg (pos 0)
        then none
        else some (ltb_ℤ given_threshold (ratio (abs_ℤ (v -ℤ avg)) avg))
  ]

  -- The pooled deviation tracker has the same text.
  abbrev pub pooled_deviation : ℕ → ℤ → AvgTracker → Option ℤ
  pooled_deviation = get_deviation

  abbrev pub pooled_above_threshold : ℕ → ℤ → ℤ → AvgTracker → Option Bool
  pooled_above_threshold = is_deviation_ratio_above_threshold

  abbrev pub pooled_deviation_ratio : ℕ → ℤ → AvgTracker → Option ℤ
  pooled_deviation_ratio = get_deviation_ratio

  abbrev pub pooled_deviation_percent : ℕ → ℤ → AvgTracker → Option ℤ
  pooled_deviation_percent = get_deviation_percent

  abbrev pub pooled_deviation_ratio_abs : ℕ → ℤ → AvgTracker → Option ℤ
  pooled_deviation_ratio_abs = get_deviation_ratio_abs

  abbrev pub pooled_deviation_percent_abs : ℕ → ℤ → AvgTracker → Option ℤ
  pooled_deviation_percent_abs = get_deviation_percent_abs

-- The pooled class has the same text.
abbrev pub pooled_avg_on_add : ℕ → ℤ → AvgTracker → AvgTracker
pooled_avg_on_add = avg_on_add

abbrev pub pooled_avg_on_remove : ℕ → ℤ → AvgTracker → AvgTracker
pooled_avg_on_remove = avg_on_remove

abbrev pub pooled_get_avg : (ℤ → ℕ → ℤ) → ℕ → AvgTracker → Option ℤ
pooled_get_avg = get_avg
