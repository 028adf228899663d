-- ===== src/Tests/Windows.antt =====
-- A window of two values, after values of two assets.
use cryptobot_algo.Base.{ℕ, ◌+◌, ◌/◌, List, [], ◌∷◌, arith}
use cryptobot_algo.Base.Int.{ℤ, pos, negsuc, sub_ℕ}
use cryptobot_algo.Trackers.Frequency.{first_key}
use cryptobot_algo.Trackers.Extreme.{lower}
use cryptobot_algo.Trackers.Extreme.Keys.{first-IsExtreme}
use cryptobot_algo.Trackers.Extreme.Tracks.{IsBest}
use cryptobot_algo.Trackers.Window.{Storage, new_storage, run, storage_min}
use cryptobot_algo.Trackers.Window.Answers.{run-storage_min}

-- Division that rounds towards 0.
abbrev divide : ℤ → ℕ → ℤ
divide (pos a) c = pos (a / c)
divide (negsuc a) c = sub_ℕ 0 ((a + 1) / c)

abbrev history : List (ℕ × ℤ)
history = (0, pos 5) ∷ (1, pos 9) ∷ (0, negsuc 2) ∷ (0, pos 7) ∷ []

abbrev two_window : Storage
two_window = run history (new_storage 2)

run-storage_min_example :
    IsBest lower first_key first-IsExtreme (negsuc 2 ∷ pos 7 ∷ []) (storage_min 0 two_window)
run-storage_min_example = run-storage_min 2 0 history (omega arith)
