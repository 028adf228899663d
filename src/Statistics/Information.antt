-- ===== src/Statistics/Information.antt =====
-- aos/mutual_information/mutual_information_calculator.h, `MutualInformationCalculatorDefault`, and
-- the class of c_mutual_information_calculator.h, which has the same text. What an entry of the joint
-- histogram adds, `p_xy * log2(p_xy / (p_x * p_y))`, is computed from the counts and the number of the
-- data by `weigh`: the logarithm and the quotients of `double` are not exact.
use cryptobot_algo.Base.{
  ℕ, not, ◌&&◌, ◌||◌, Option, none, some, List, [], ◌∷◌, ltb, if◌then◌else◌, length, then_do,
}
use cryptobot_algo.Base.Int.{ℤ, pos, ◌+ℤ◌}
use cryptobot_algo.Trackers.Window.{Storage, window, has_enough_data, storage_min, storage_max}
use cryptobot_algo.Statistics.{
  Histogram, count_at, JointHistogram, compute_histogram, compute_histogram_between,
  compute_joint_histogram, compute_joint_histogram_between,
}

module _ (weigh : ℕ → ℕ → ℕ → ℕ → ℤ) where
  -- The loop over the entries of the joint histogram, of data of the length `n`.
  unfoldable pub information : ℕ → Histogram → Histogram → JointHistogram → ℤ → ℤ
  unfolding count_at
  information n hx hy [] mi = mi
  information n hx hy (((x, y), p_xy) ∷ joint) mi =
      let p_x = count_at x hx in
      let p_y = count_at y hy in
      information n hx hy joint
        (if ltb 0 p_xy && ltb 0 p_x && ltb 0 p_y then mi +ℤ weigh p_xy p_x p_y n else mi)

  unfoldable pub compute_mutual_information : List ℤ → List ℤ → ℕ → Option ℤ
  unfolding information compute_histogram compute_joint_histogram
  compute_mutual_information xs ys bins = then_do (compute_histogram xs bins) (λ hx.
      then_do (compute_histogram ys bins) (λ hy.
        then_do (compute_joint_histogram xs ys bins)
          (λ joint. some (information (length xs) hx hy joint (pos 0)))))

  unfoldable pub compute_mutual_information_between : List ℤ → ℤ → ℤ → List ℤ → ℤ → ℤ → ℕ → Option ℤ
  unfolding information compute_histogram_between compute_joint_histogram_between
  compute_mutual_information_between xs min_x max_x ys min_y max_y bins =
      then_do (compute_histogram_between xs min_x max_x bins) (λ hx.
        then_do (compute_histogram_between ys min_y max_y bins) (λ hy.
          then_do (compute_joint_histogram_between xs min_x max_x ys min_y max_y bins)
            (λ joint. some (information (length xs) hx hy joint (pos 0)))))

  -- With the smallest and the largest values of the windows, where the trackers have them.
  abbrev pub between_answers :
      Storage → ℕ → ℕ → ℕ → Option ℤ → Option ℤ → Option ℤ → Option ℤ → Option (Option ℤ)
  between_answers s asset paired bins (some min_x) (some max_x) (some min_y) (some max_y) =
      then_do
        (compute_mutual_information_between (window asset s) min_x max_x (window paired s) min_y
          max_y bins)
        (λ mi. some (some mi))
  between_answers s asset paired bins _ _ _ _ = some none

  -- The inner `none` is the answer that there are too few data.
  unfoldable pub window_mutual_information : Storage → ℕ → ℕ → ℕ → Option (Option ℤ)
  unfolding compute_mutual_information_between
  window_mutual_information s asset paired bins =
      if not (has_enough_data asset s) || not (has_enough_data paired s)
      then some none
      else between_answers s asset paired bins (storage_min asset s) (storage_max asset s)
          (storage_min paired s) (storage_max paired s)

  -- The class that owns its calculators.
  abbrev pub owned_mutual_information : List ℤ → List ℤ → ℕ → Option ℤ
  owned_mutual_information = compute_mutual_information

  abbrev pub owned_mutual_information_between : List ℤ → ℤ → ℤ → List ℤ → ℤ → ℤ → ℕ → Option ℤ
  owned_mutual_information_between = compute_mutual_information_between

  abbrev pub owned_window_mutual_information : Storage → ℕ → ℕ → ℕ → Option (Option ℤ)
  owned_window_mutual_information = window_mutual_information
