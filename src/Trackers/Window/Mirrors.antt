-- ===== src/Trackers/Window/Mirrors.antt =====
-- The window of an asset against what its trackers hold.
use cryptobot_algo.Base.{
  ℕ, ◌+◌, ◌^◌, ◌<◌, ◌≡◌, false, List, [], ◌∷◌, ◌++◌, arith, ◌==◌, ltb, if◌then◌else◌, if-intro,
  Bool-cases, inl, inr, length, drop, length-append,
}
use cryptobot_algo.Base.Int.{ℤ}
use cryptobot_algo.Trackers.Frequency.{first_key, last_key}
use cryptobot_algo.Trackers.Extreme.{lower, higher}
use cryptobot_algo.Trackers.Extreme.Keys.{first-IsExtreme, last-IsExtreme}
use cryptobot_algo.Trackers.Extreme.Tracks.{Tracks, on_add-Tracks, on_remove-Tracks}
use cryptobot_algo.Trackers.Extreme.Others.{Agree, Tracks-Agree, on_add-Agree, on_remove-Agree}
use cryptobot_algo.Trackers.Average.Sums.{
  Averages, avg_on_add-Averages, avg_on_remove-Averages, avg_on_add-Same, avg_on_remove-Same,
  SameSums,
}
use cryptobot_algo.Trackers.Window.{
  Storage, update_trackers_on_add, update_trackers_on_remove, window, put_window, trim, add_data,
}
use cryptobot_algo.Trackers.Window.Last.{slide}

-- The trackers hold the values `ws` of the asset.
pub record Mirrors (s : Storage) (h : ℕ) (ws : List ℤ) : Type 0 where
  pub values : window h s ≡ ws
  pub averages : Averages s.avg h ws
  pub lowest : Tracks lower first_key first-IsExtreme s.lowest h ws
  pub highest : Tracks higher last_key last-IsExtreme s.highest h ws

on_add-Mirrors :
    (h : ℕ) (v : ℤ) (s : Storage) (ws : List ℤ)
    → length ws + 1 < 2 ^ 64
    → Mirrors s h ws
    → Mirrors (update_trackers_on_add h v (put_window h (ws ++ v ∷ []) s)) h (ws ++ v ∷ [])
on_add-Mirrors h v s ws b m = record {
  values = ground arith;
  averages = avg_on_add-Averages h v s.avg ws b m.averages;
  lowest = on_add-Tracks lower first_key first-IsExtreme h v s.lowest ws (ground arith) m.lowest;
  highest = on_add-Tracks higher last_key last-IsExtreme h v s.highest ws (ground arith) m.highest;
}

on_remove-Mirrors :
    (h : ℕ) (v : ℤ) (s : Storage) (ws : List ℤ)
    → length ws + 1 < 2 ^ 64
    → Mirrors s h (v ∷ ws)
    → Mirrors (update_trackers_on_remove h v (put_window h ws s)) h ws
on_remove-Mirrors h v s ws b m = record {
  values = ground arith;
  averages = avg_on_remove-Averages h v s.avg ws b m.averages;
  lowest = on_remove-Tracks lower first_key first-IsExtreme h v s.lowest ws m.lowest;
  highest = on_remove-Tracks higher last_key last-IsExtreme h v s.highest ws m.highest;
}

trim-Mirrors :
    (h : ℕ) (s : Storage) (ws : List ℤ)
    → length ws < 2 ^ 64
    → Mirrors s h ws
    → Mirrors (trim h ws s) h (if ltb s.window_size (length ws) then drop 1 ws else ws)
unfolding trim
trim-Mirrors h s [] b m = ground arith
trim-Mirrors h s (v ∷ ws) b m = elim (Bool-cases (ltb s.window_size (length (v ∷ ws)))) [
  | inl long ↦ rw long (on_remove-Mirrors h v s ws (omega (arith, b)) m)
  | inr short ↦ rw short m
]

pub add_data-Mirrors :
    (h : ℕ) (v : ℤ) (s : Storage) (ws : List ℤ)
    → length ws + 1 < 2 ^ 64
    → Mirrors s h ws
    → Mirrors (add_data h v s) h (slide s.window_size v ws)
unfolding add_data
add_data-Mirrors h v s ws b m =
    let s' = update_trackers_on_add h v (put_window h (window h s ++ v ∷ []) s) in
    let added : Mirrors s' h (ws ++ v ∷ []) = rw m.values (on_add-Mirrors h v s ws b m) in
    rw added.values
      (trim-Mirrors h s' (ws ++ v ∷ []) (rw (length-append ws (v ∷ [])) (omega arith)) added)

-- What the storage knows of another asset.
record Same (j : ℕ) (s s' : Storage) : Type 0 where
  windows : s.windows j ≡ s'.windows j
  pub averages : SameSums j s.avg s'.avg
  pub lowest : Agree j s.lowest s'.lowest
  pub highest : Agree j s.highest s'.highest

removed_other :
    (h j : ℕ) (v : ℤ) (ws : List ℤ) (s : Storage)
    → (h == j) ≡ false
    → Same j (update_trackers_on_remove h v (put_window h ws s)) s
removed_other h j v ws s e = record {
  windows = ground (arith, e);
  averages = avg_on_remove-Same h j v s.avg e;
  lowest = on_remove-Agree first_key h j v s.lowest e;
  highest = on_remove-Agree last_key h j v s.highest e;
}

added_other :
    (h j : ℕ) (v : ℤ) (ws : List ℤ) (s : Storage)
    → (h == j) ≡ false
    → Same j (update_trackers_on_add h v (put_window h ws s)) s
added_other h j v ws s e = record {
  windows = ground (arith, e);
  averages = avg_on_add-Same h j v s.avg e;
  lowest = on_add-Agree lower h j v s.lowest e;
  highest = on_add-Agree higher h j v s.highest e;
}

Same-Mirrors :
    (j : ℕ) (s s' : Storage) (ws : List ℤ) → Same j s s' → Mirrors s' j ws → Mirrors s j ws
Same-Mirrors j s s' ws r m = record {
  values = rw r.windows m.values;
  averages = rw (r.averages.0, r.averages.1) m.averages;
  lowest = Tracks-Agree lower first_key first-IsExtreme s.lowest s'.lowest j ws r.lowest m.lowest;
  highest =
      Tracks-Agree higher last_key last-IsExtreme s.highest s'.highest j ws r.highest m.highest;
}

trim_other :
    (h j : ℕ) (s : Storage) (w ws : List ℤ)
    → (h == j) ≡ false
    → Mirrors s j ws
    → Mirrors (trim h w s) j ws
unfolding trim
trim_other h j s [] ws e m = m
trim_other h j s (front ∷ w) ws e m =
    let s' = update_trackers_on_remove h front (put_window h w s) in
    if-intro (λ r. Mirrors r j ws) (ltb s.window_size (length (front ∷ w)))
      (λ long. Same-Mirrors j s' s ws (removed_other h j front w s e) m) (λ short. m)

pub add_data_other :
    (h j : ℕ) (v : ℤ) (s : Storage) (ws : List ℤ)
    → (h == j) ≡ false
    → Mirrors s j ws
    → Mirrors (add_data h v s) j ws
unfolding add_data
add_data_other h j v s ws e m =
    let w = window h s ++ v ∷ [] in
    let s' = update_trackers_on_add h v (put_window h w s) in
    trim_other h j s' (window h s') ws e (Same-Mirrors j s' s ws (added_other h j v w s e) m)
