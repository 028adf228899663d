-- ===== src/Statistics.antt =====
-- aos/histogram/histogram_calculator.h, aos/joint_histogram/joint_histogram_calculator.h and
-- aos/mutual_information/mutual_information_calculator.h. The values are integers of a unit and the
-- quotients exact. A map is the list of its entries, the first written first, and counts: the
-- normalised value of an entry is its count over the number of the data. `none` is undefined
-- behaviour: the smallest of no values, a value past the end of the data, and the conversion of a
-- quotient by 0 to `int`.
pub mod Bins
pub mod Marginal
pub mod Information
use cryptobot_algo.Base.{
  ℕ, suc, ◌+◌, ◌*◌, ◌/◌, Bool, true, false, not, ◌&&◌, Option, none, some, List, [], ◌∷◌, ◌==◌, ltb,
  if◌then◌else◌, length, then_do,
}
use cryptobot_algo.Base.Int.{ℤ, pos, pos_part, neg_part, ◌+ℤ◌, ◌-ℤ◌, ◌*ℤ◌, ltb_ℤ, eqb_ℤ}
use cryptobot_algo.Positions.Calculators.{zero_ℤ, neg_ℤ, size_ℤ}

-- A quotient converted to `int`, which rounds towards 0.
abbrev pub trunc_div : ℤ → ℤ → Option ℤ
trunc_div a b =
    let q = pos (pos_part (size_ℤ a) / pos_part (size_ℤ b)) in
    if eqb_ℤ b zero_ℤ
    then none
    else some (
        if ltb_ℤ a zero_ℤ
        then (if ltb_ℤ b zero_ℤ then q else neg_ℤ q)
        else (if ltb_ℤ b zero_ℤ then neg_ℤ q else q))

-- `(value - min_val) / bin_width`, with the width `(max_val - min_val) / bins`.
unfoldable pub bin_index : ℤ → ℤ → ℤ → ℕ → Option ℤ
bin_index value min_val max_val bins =
    trunc_div ((value -ℤ min_val) *ℤ pos bins) (max_val -ℤ min_val)

-- `std::min_element` and `std::max_element` of data that begin with a value.
unfoldable pub min_element : ℤ → List ℤ → ℤ
min_element x [] = x
min_element x (y ∷ ys) = min_element (if ltb_ℤ y x then y else x) ys

unfoldable pub max_element : ℤ → List ℤ → ℤ
max_element x [] = x
max_element x (y ∷ ys) = max_element (if ltb_ℤ x y then y else x) ys

abbrev pub Histogram : Type 0
Histogram = List (ℤ × ℕ)

-- `histogram[bin_index]++`.
unfoldable pub bump : ℤ → Histogram → Histogram
bump bin [] = (bin, 1) ∷ []
bump bin ((b, count) ∷ histogram) =
    let rest = bump bin histogram in
    if eqb_ℤ b bin then (b, suc count) ∷ histogram else (b, count) ∷ rest

-- The count that `histogram[bin]` shows.
unfoldable pub count_at : ℤ → Histogram → ℕ
count_at bin [] = 0
count_at bin ((b, count) ∷ histogram) =
    let rest = count_at bin histogram in if eqb_ℤ b bin then count else rest

-- The loop over the data.
unfoldable pub fill : List ℤ → ℤ → ℤ → ℕ → Histogram → Option Histogram
unfolding bin_index bump
fill [] min_val max_val bins histogram = some histogram
fill (value ∷ values) min_val max_val bins histogram =
    then_do (bin_index value min_val max_val bins)
      (λ bin. fill values min_val max_val bins (bump bin histogram))

unfoldable pub compute_histogram_between : List ℤ → ℤ → ℤ → ℕ → Option Histogram
unfolding fill
compute_histogram_between values min_val max_val bins = fill values min_val max_val bins []

unfoldable pub compute_histogram : List ℤ → ℕ → Option Histogram
unfolding fill min_element max_element
compute_histogram [] bins = none
compute_histogram (x ∷ xs) bins = fill (x ∷ xs) (min_element x xs) (max_element x xs) bins []

abbrev pub JointHistogram : Type 0
JointHistogram = List ((ℤ × ℤ) × ℕ)

unfoldable pub bump_joint : ℤ → ℤ → JointHistogram → JointHistogram
bump_joint bin_x bin_y [] = ((bin_x, bin_y), 1) ∷ []
bump_joint bin_x bin_y (((x, y), count) ∷ joint) =
    let rest = bump_joint bin_x bin_y joint in
    if eqb_ℤ x bin_x && eqb_ℤ y bin_y then ((x, y), suc count) ∷ joint else ((x, y), count) ∷ rest

-- The loop over the indices of `x`.
unfoldable pub fill_joint :
    List ℤ → ℤ → ℤ → List ℤ → ℤ → ℤ → ℕ → JointHistogram → Option JointHistogram
unfolding bin_index bump_joint
fill_joint [] min_x max_x ys min_y max_y bins joint = some joint
fill_joint (x ∷ xs) min_x max_x [] min_y max_y bins joint = none
fill_joint (x ∷ xs) min_x max_x (y ∷ ys) min_y max_y bins joint =
    then_do (bin_index x min_x max_x bins) (λ bin_x.
      then_do (bin_index y min_y max_y bins)
        (λ bin_y. fill_joint xs min_x max_x ys min_y max_y bins (bump_joint bin_x bin_y joint)))

unfoldable pub compute_joint_histogram_between :
    List ℤ → ℤ → ℤ → List ℤ → ℤ → ℤ → ℕ → Option JointHistogram
unfolding fill_joint
compute_joint_histogram_between xs min_x max_x ys min_y max_y bins =
    fill_joint xs min_x max_x ys min_y max_y bins []

unfoldable pub compute_joint_histogram : List ℤ → List ℤ → ℕ → Option JointHistogram
unfolding fill_joint min_element max_element
compute_joint_histogram [] ys bins = none
compute_joint_histogram (x ∷ xs) [] bins = none
compute_joint_histogram (x ∷ xs) (y ∷ ys) bins =
    fill_joint (x ∷ xs) (min_element x xs) (max_element x xs) (y ∷ ys) (min_element y ys)
      (max_element y ys) bins []

-- The pooled classes have the same text.
abbrev pub pooled_histogram : List ℤ → ℕ → Option Histogram
pooled_histogram = compute_histogram

abbrev pub pooled_histogram_between : List ℤ → ℤ → ℤ → ℕ → Option Histogram
pooled_histogram_between = compute_histogram_between

abbrev pub pooled_joint_histogram : List ℤ → List ℤ → ℕ → Option JointHistogram
pooled_joint_histogram = compute_joint_histogram

abbrev pub pooled_joint_histogram_between :
    List ℤ → ℤ → ℤ → List ℤ → ℤ → ℤ → ℕ → Option JointHistogram
pooled_joint_histogram_between = compute_joint_histogram_between
