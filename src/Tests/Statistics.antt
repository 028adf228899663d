-- ===== src/Tests/Statistics.antt =====
-- Histograms of short series.
use cryptobot_algo.Base.{◌≡◌, refl, some, List, [], ◌∷◌}
use cryptobot_algo.Base.Int.{ℤ, pos, negsuc, ◌-ℤ◌, ◌*ℤ◌}
use cryptobot_algo.Statistics.{count_at, JointHistogram, compute_histogram, compute_joint_histogram}
use cryptobot_algo.Statistics.Marginal.{first_axis, second_axis, compute_joint_histogram_axes}

abbrev ramp : List ℤ
ramp = pos 1 ∷ negsuc 0 ∷ pos 3 ∷ []

-- With two bins the values fall into three.
three_bins : compute_histogram ramp 2 ≡ some ((pos 1, 1) ∷ (pos 0, 1) ∷ (pos 2, 1) ∷ [])
unfolding compute_histogram ◌-ℤ◌ ◌*ℤ◌
three_bins = refl

abbrev step : List ℤ
step = pos 0 ∷ pos 0 ∷ pos 8 ∷ []

compute_joint_histogram_axes_example :
    (j : JointHistogram) × (compute_joint_histogram ramp step 2 ≡ some j)
    × ((b : ℤ) → first_axis b j ≡ count_at b ((pos 1, 1) ∷ (pos 0, 1) ∷ (pos 2, 1) ∷ []))
    × ((b : ℤ) → second_axis b j ≡ count_at b ((pos 0, 2) ∷ (pos 2, 1) ∷ []))
unfolding compute_histogram ◌-ℤ◌ ◌*ℤ◌
compute_joint_histogram_axes_example = compute_joint_histogram_axes ramp step 2 refl refl refl
