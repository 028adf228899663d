-- ===== src/Trackers/Window.antt =====
-- aos/sliding_window_storage/sliding_window_storage.h: the window of each asset and the trackers that
-- are told of what enters and leaves it. `window_size_` is compared as a `size_t`.
pub mod Last
pub mod Mirrors
pub mod Answers
pub mod Owned
use cryptobot_algo.Base.{
  ℕ, Bool, false, Option, none, some, List, [], ◌∷◌, ◌++◌, ltb, leb, if◌then◌else◌, length,
}
use cryptobot_algo.Base.Int.{ℤ}
use cryptobot_algo.Base.Maps.{Map, empty, insert, get_or}
use cryptobot_algo.Trackers.Extreme.{
  Tracker, new_tracker, min_on_add, min_on_remove, max_on_add, max_on_remove, get_element,
}
use cryptobot_algo.Trackers.Average.{
  AvgTracker, new_avg, avg_on_add, avg_on_remove, get_avg, get_deviation, get_deviation_ratio,
  get_deviation_percent, get_deviation_ratio_abs, get_deviation_percent_abs,
}

pub record Storage : Type 0 where
  pub window_size : ℕ
  pub windows : Map (List ℤ)
  pub avg : AvgTracker
  pub lowest : Tracker
  pub highest : Tracker

-- The constructor, over trackers that hold nothing.
abbrev pub new_storage : ℕ → Storage
new_storage n = record {
  window_size = n;
  windows = empty;
  avg = new_avg;
  lowest = new_tracker;
  highest = new_tracker;
}

abbrev pub update_trackers_on_add : ℕ → ℤ → Storage → Storage
update_trackers_on_add h v s = record s {
  avg = avg_on_add h v s.avg;
  lowest = min_on_add h v s.lowest;
  highest = max_on_add h v s.highest;
}

abbrev pub update_trackers_on_remove : ℕ → ℤ → Storage → Storage
update_trackers_on_remove h v s = record s {
  avg = avg_on_remove h v s.avg;
  lowest = min_on_remove h v s.lowest;
  highest = max_on_remove h v s.highest;
}

-- The window of an asset; `data_[asset]`.
abbrev pub window : ℕ → Storage → List ℤ
window h s = get_or [] (s.windows h)

abbrev pub put_window : ℕ → List ℤ → Storage → Storage
put_window h w s = record s { windows = insert h w s.windows }

-- `front` and `pop_front`, where the window is too long.
pub trim : ℕ → List ℤ → Storage → Storage
trim h [] s = s
trim h (front ∷ w) s =
    if ltb s.window_size (length (front ∷ w))
    then update_trackers_on_remove h front (put_window h w s)
    else s

pub add_data : ℕ → ℤ → Storage → Storage
unfolding trim
add_data h v s =
    let s' = update_trackers_on_add h v (put_window h (window h s ++ v ∷ []) s) in
    trim h (window h s') s'

pub has_enough_data : ℕ → Storage → Bool
has_enough_data h s = elim (s.windows h) [ none ↦ false | some w ↦ leb s.window_size (length w) ]

abbrev pub storage_avg : (ℤ → ℕ → ℤ) → ℕ → Storage → Option ℤ
storage_avg quot h s = get_avg quot h s.avg

-- `GetDeviation`, and the relative ones; `ratio` divides two values.
module _ (quot : ℤ → ℕ → ℤ) (ratio : ℤ → ℤ → ℤ) where
  abbrev pub storage_deviation : ℕ → ℤ → Storage → Option ℤ
  storage_deviation h v s = get_deviation quot ratio h v s.avg

  abbrev pub storage_deviation_ratio : ℕ → ℤ → Storage → Option ℤ
  storage_deviation_ratio h v s = get_deviation_ratio quot ratio h v s.avg

  abbrev pub storage_deviation_percent : ℕ → ℤ → Storage → Option ℤ
  storage_deviation_percent h v s = get_deviation_percent quot ratio h v s.avg

  abbrev pub storage_deviation_ratio_abs : ℕ → ℤ → Storage → Option ℤ
  storage_deviation_ratio_abs h v s = get_deviation_ratio_abs quot ratio h v s.avg

  abbrev pub storage_deviation_percent_abs : ℕ → ℤ → Storage → Option ℤ
  storage_deviation_percent_abs h v s = get_deviation_percent_abs quot ratio h v s.avg

abbrev pub storage_min : ℕ → Storage → Option ℤ
storage_min h s = get_element h s.lowest

abbrev pub storage_max : ℕ → Storage → Option ℤ
storage_max h s = get_element h s.highest

-- A history of `AddData`, oldest first: assets and values.
pub run : List (ℕ × ℤ) → Storage → Storage
unfolding add_data
run [] s = s
run (x ∷ xs) s = run xs (add_data x.0 x.1 s)

-- The pooled class has the same text.
abbrev pub pooled_add_data : ℕ → ℤ → Storage → Storage
pooled_add_data = add_data

abbrev pub pooled_has_enough_data : ℕ → Storage → Bool
pooled_has_enough_data = has_enough_data
