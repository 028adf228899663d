-- ===== src/Trackers/Window/Answers.antt =====
-- What the sliding window answers after any history of `AddData`.
use cryptobot_algo.Base.{
  ℕ, ◌+◌, ◌-◌, ◌^◌, ◌<◌, ◌≡◌, refl, ap, ◌∙◌, List, [], ◌∷◌, ◌++◌, arith, ◌==◌, leb, ltb,
  if◌then◌else◌, Bool-cases, Option-cases, inl, inr, length, append_assoc, append-nil, ==_iff,
}
use cryptobot_algo.Base.Int.{ℤ}
use cryptobot_algo.Trackers.Frequency.{first_key, last_key}
use cryptobot_algo.Trackers.Extreme.{lower, higher}
use cryptobot_algo.Trackers.Extreme.Keys.{first-IsExtreme, last-IsExtreme}
use cryptobot_algo.Trackers.Extreme.Tracks.{new_tracker-Tracks, IsBest, get_element-IsBest}
use cryptobot_algo.Trackers.Average.Sums.{
  mean, Deviates, deviations, new_avg-Averages, get_avg-Averages,
}
use cryptobot_algo.Trackers.Window.{
  Storage, new_storage, update_trackers_on_add, put_window, window, trim, add_data, has_enough_data,
  storage_avg, storage_deviation, storage_deviation_ratio, storage_deviation_percent,
  storage_deviation_ratio_abs, storage_deviation_percent_abs, storage_min, storage_max, run,
}
use cryptobot_algo.Trackers.Window.Last.{values_of, drop-nil, last, slide, length-last, slide-last}
use cryptobot_algo.Trackers.Window.Mirrors.{Mirrors, add_data-Mirrors, add_data_other}

new_storage-Mirrors : (n h : ℕ) → Mirrors (new_storage n) h []
new_storage-Mirrors n h = record {
  values = refl;
  averages = new_avg-Averages h;
  lowest = new_tracker-Tracks lower first_key first-IsExtreme h;
  highest = new_tracker-Tracks higher last_key last-IsExtreme h;
}

slide-Mirrors :
    (n h : ℕ) (v : ℤ) (s : Storage) (ws : List ℤ)
    → s.window_size ≡ n
    → length ws + 1 < 2 ^ 64
    → Mirrors s h ws
    → Mirrors (add_data h v s) h (slide n v ws)
slide-Mirrors n h v s ws size b m = rw (← size) (add_data-Mirrors h v s ws b m)

add_data_next :
    (n h j : ℕ) (v : ℤ) (s : Storage) (vs : List ℤ)
    → n + 1 < 2 ^ 64
    → s.window_size ≡ n
    → Mirrors s h (last n vs)
    → Mirrors (add_data j v s) h (last n (vs ++ values_of h ((j, v) ∷ [])))
add_data_next n h j v s vs b size m = elim (Bool-cases (j == h)) [
  | inl same ↦
      let eq : j ≡ h = (==_iff j h).0 same in
      let short : length (last n vs) + 1 < 2 ^ 64 = ground (arith, length-last n vs) in
      rw (same, eq, ← slide-last n v vs) (slide-Mirrors n h v s (last n vs) size short m)
  | inr other ↦ rw (other, append-nil vs) (add_data_other j h v s (last n vs) other m)
]

trim_size : (h : ℕ) (w : List ℤ) (s : Storage) → (trim h w s).window_size ≡ s.window_size
unfolding trim
trim_size h [] s = refl
trim_size h (v ∷ w) s = ground arith

add_data_size : (h : ℕ) (v : ℤ) (s : Storage) → (add_data h v s).window_size ≡ s.window_size
unfolding add_data
add_data_size h v s =
    let s' = update_trackers_on_add h v (put_window h (window h s ++ v ∷ []) s) in
    trim_size h (window h s') s'

values_of-append :
    (h : ℕ) (x : ℕ × ℤ) (xs : List (ℕ × ℤ))
    → values_of h (x ∷ xs) ≡ values_of h (x ∷ []) ++ values_of h xs
values_of-append h (j, v) xs = elim (Bool-cases (j == h)) [
  | inl same ↦ rw same refl
  | inr other ↦ rw other refl
]

run-Mirrors :
    (n h : ℕ) (xs : List (ℕ × ℤ)) (s : Storage) (vs : List ℤ)
    → n + 1 < 2 ^ 64
    → s.window_size ≡ n
    → Mirrors s h (last n vs)
    → Mirrors (run xs s) h (last n (vs ++ values_of h xs))
unfolding run
run-Mirrors n h [] s vs b size m = rw (append-nil vs) m
run-Mirrors n h ((j, v) ∷ xs) s vs b size m =
    let now = values_of h ((j, v) ∷ []) in
    let m' = add_data_next n h j v s vs b size m in
    rw (values_of-append h (j, v) xs, ← append_assoc vs now (values_of h xs))
      (run-Mirrors n h xs (add_data j v s) (vs ++ now) b (add_data_size j v s ∙ size) m')

-- After the history `xs` the window of every asset is what the trackers hold for it.
storage-Mirrors :
    (n h : ℕ) (xs : List (ℕ × ℤ))
    → n + 1 < 2 ^ 64
    → Mirrors (run xs (new_storage n)) h (last n (values_of h xs))
storage-Mirrors n h xs b =
    run-Mirrors n h xs (new_storage n) [] b refl (rw (drop-nil (0 - n)) (new_storage-Mirrors n h))

-- After any history of added values, of one asset or many, in a storage of window size `n` (below
-- 2^64 - 1): the window of each asset is the last `n` values added for it, and the average is their
-- sum divided by their number, or no answer if there are none.
pub run-storage_avg :
    (quot : ℤ → ℕ → ℤ) (n h : ℕ) (xs : List (ℕ × ℤ))
    → n + 1 < 2 ^ 64
    → let s = run xs (new_storage n) in
      (window h s ≡ last n (values_of h xs))
      × (storage_avg quot h s ≡ mean quot (last n (values_of h xs)))
run-storage_avg quot n h xs b =
    let m = storage-Mirrors n h xs b in
    (
      m.values,
      get_avg-Averages quot h (run xs (new_storage n)).avg (last n (values_of h xs)) m.averages,
    )

-- After any history of added values (window size `n`, below 2^64 - 1), the deviations of a value are
-- taken from the mean of the last `n` values of the asset: the difference; its ratio to the mean; 100
-- times that; and the last two with absolute values. There is no answer where there are no values,
-- and but the difference no answer where the mean is 0.
pub run-storage_deviation :
    (quot : ℤ → ℕ → ℤ) (ratio : ℤ → ℤ → ℤ) (n h : ℕ) (v : ℤ) (xs : List (ℕ × ℤ))
    → n + 1 < 2 ^ 64
    → let s = run xs (new_storage n) in
      Deviates ratio v
        (mean quot (last n (values_of h xs)))
        (storage_deviation quot ratio h v s)
        (storage_deviation_ratio quot ratio h v s)
        (storage_deviation_percent quot ratio h v s)
        (storage_deviation_ratio_abs quot ratio h v s)
        (storage_deviation_percent_abs quot ratio h v s)
run-storage_deviation quot ratio n h v xs b =
    deviations quot ratio h v (run xs (new_storage n)).avg (mean quot (last n (values_of h xs)))
      (run-storage_avg quot n h xs b).1

-- After any history of added values in a storage of window size `n` (below 2^64 - 1), the minimum
-- answered for an asset is one of the last `n` values added for it and none of them is lower; there is
-- no answer only where there are none.
pub run-storage_min :
    (n h : ℕ) (xs : List (ℕ × ℤ))
    → n + 1 < 2 ^ 64
    → IsBest lower first_key first-IsExtreme
        (last n (values_of h xs))
        (storage_min h (run xs (new_storage n)))
run-storage_min n h xs b =
    get_element-IsBest lower first_key first-IsExtreme h (run xs (new_storage n)).lowest
      (last n (values_of h xs)) (storage-Mirrors n h xs b).lowest

-- After any history of added values in a storage of window size `n` (below 2^64 - 1), the maximum
-- answered for an asset is one of the last `n` values added for it and none of them is higher; there is
-- no answer only where there are none.
pub run-storage_max :
    (n h : ℕ) (xs : List (ℕ × ℤ))
    → n + 1 < 2 ^ 64
    → IsBest higher last_key last-IsExtreme
        (last n (values_of h xs))
        (storage_max h (run xs (new_storage n)))
run-storage_max n h xs b =
    get_element-IsBest higher last_key last-IsExtreme h (run xs (new_storage n)).highest
      (last n (values_of h xs)) (storage-Mirrors n h xs b).highest

run_size : (xs : List (ℕ × ℤ)) (s : Storage) → (run xs s).window_size ≡ s.window_size
unfolding run
run_size [] s = refl
run_size (x ∷ xs) s = run_size xs (add_data x.0 x.1 s) ∙ add_data_size x.0 x.1 s

has_enough_data_lem :
    (n h k : ℕ) (s : Storage)
    → 0 < n
    → s.window_size ≡ n
    → length (window h s) ≡ (if ltb n k then n else k)
    → has_enough_data h s ≡ leb n k
unfolding has_enough_data
has_enough_data_lem n h k s p size e = elim (Option-cases (s.windows h)) [
  | inl f ↦ ground (arith, f, e)
  | inr (w, f) ↦ ground (arith, f, e)
]

-- After any history of added values in a storage of window size `n` (at least 1, below 2^64 - 1),
-- `HasEnoughData` says of each asset whether at least `n` values were added for it.
pub run-has_enough_data :
    (n h : ℕ) (xs : List (ℕ × ℤ))
    → 0 < n
    → n + 1 < 2 ^ 64
    → has_enough_data h (run xs (new_storage n)) ≡ leb n (length (values_of h xs))
run-has_enough_data n h xs p b =
    let vs = values_of h xs in
    let m = (storage-Mirrors n h xs b).values in
    has_enough_data_lem n h (length vs) (run xs (new_storage n)) p (run_size xs (new_storage n))
      (ap length m ∙ length-last n vs)
