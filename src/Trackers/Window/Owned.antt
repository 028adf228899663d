-- ===== src/Trackers/Window/Owned.antt =====
-- `SlidingWindowStorageAvgDevMinMax` of aos/sliding_window_storage/c_sliding_window_storage.h owns its
-- trackers and hands every call to the window; so do the pooled classes of
-- sliding_window_storage.h.
use cryptobot_algo.Base.{ℕ, Bool, Option, List}
use cryptobot_algo.Base.Int.{ℤ}
use cryptobot_algo.Trackers.Average.{is_deviation_ratio_above_threshold}
use cryptobot_algo.Trackers.Window.{
  Storage, new_storage, add_data, window, has_enough_data, storage_avg, storage_deviation,
  storage_deviation_ratio, storage_deviation_percent, storage_deviation_ratio_abs,
  storage_deviation_percent_abs, storage_min, storage_max,
}

abbrev pub new_owned : ℕ → Storage
new_owned = new_storage

abbrev pub owned_add_data : ℕ → ℤ → Storage → Storage
owned_add_data = add_data

abbrev pub owned_window : ℕ → Storage → List ℤ
owned_window = window

abbrev pub owned_has_enough_data : ℕ → Storage → Bool
owned_has_enough_data = has_enough_data

abbrev pub owned_min : ℕ → Storage → Option ℤ
owned_min = storage_min

abbrev pub owned_max : ℕ → Storage → Option ℤ
owned_max = storage_max

abbrev pub owned_avg : (ℤ → ℕ → ℤ) → ℕ → Storage → Option ℤ
owned_avg = storage_avg

module _ (quot : ℤ → ℕ → ℤ) (ratio : ℤ → ℤ → ℤ) where
  abbrev pub storage_above_threshold : ℕ → ℤ → ℤ → Storage → Option Bool
  storage_above_threshold h v given_threshold s =
      is_deviation_ratio_above_threshold quot ratio h v given_threshold s.avg

  abbrev pub owned_above_threshold : ℕ → ℤ → ℤ → Storage → Option Bool
  owned_above_threshold = storage_above_threshold

  abbrev pub owned_deviation : ℕ → ℤ → Storage → Option ℤ
  owned_deviation = storage_deviation quot ratio

  abbrev pub owned_deviation_ratio : ℕ → ℤ → Storage → Option ℤ
  owned_deviation_ratio = storage_deviation_ratio quot ratio

  abbrev pub owned_deviation_percent : ℕ → ℤ → Storage → Option ℤ
  owned_deviation_percent = storage_deviation_percent quot ratio

  abbrev pub owned_deviation_ratio_abs : ℕ → ℤ → Storage → Option ℤ
  owned_deviation_ratio_abs = storage_deviation_ratio_abs quot ratio

  abbrev pub owned_deviation_percent_abs : ℕ → ℤ → Storage → Option ℤ
  owned_deviation_percent_abs = storage_deviation_percent_abs quot ratio
