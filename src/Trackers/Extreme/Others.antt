-- ===== src/Trackers/Extreme/Others.antt =====
-- What an operation on one asset does to what a tracker knows of another.
use cryptobot_algo.Base.{
  ℕ, ◌≡◌, refl, Bool, false, Option, List, arith, ◌==◌, Option-cases, inl, inr,
}
use cryptobot_algo.Base.Int.{ℤ}
use cryptobot_algo.Trackers.Frequency.{Frequency, decrement}
use cryptobot_algo.Trackers.Extreme.{Tracker, on_add, count_out, on_remove}
use cryptobot_algo.Trackers.Extreme.Keys.{IsExtreme}
use cryptobot_algo.Trackers.Extreme.Tracks.{Tracks, held}

-- The two trackers know the same of the asset.
abbrev pub Agree : ℕ → Tracker → Tracker → Type 0
Agree j t u = (t.frequency j ≡ u.frequency j) × (t.element j ≡ u.element j)

pub on_add-Agree :
    (beats : ℤ → ℤ → Bool) (h j : ℕ) (v : ℤ) (t : Tracker)
    → (h == j) ≡ false
    → Agree j (on_add beats h v t) t
unfolding on_add
on_add-Agree beats h j v t e = ground (arith, e)

count_out-Agree :
    (key : Frequency → Option ℤ) (h j : ℕ) (v : ℤ) (m : Frequency) (t : Tracker)
    → (h == j) ≡ false
    → Agree j (count_out key h v m t) t
count_out-Agree key h j v m t e = elim (Option-cases (key m)) [
  | inl f ↦ ground (arith, e, f)
  | inr (x, f) ↦ ground (arith, e, f)
]

pub on_remove-Agree :
    (key : Frequency → Option ℤ) (h j : ℕ) (v : ℤ) (t : Tracker)
    → (h == j) ≡ false
    → Agree j (on_remove key h v t) t
unfolding on_remove
on_remove-Agree key h j v t e = elim (Option-cases (t.frequency h)) [
  | inl f ↦ ground (arith, f)
  | inr (m, f) ↦ ground (arith, f, count_out-Agree key h j v (decrement v m) t e)
]

module _ (beats : ℤ → ℤ → Bool) (key : Frequency → Option ℤ) (laws : IsExtreme beats key) where
  pub Tracks-Agree :
      (t u : Tracker) (j : ℕ) (ws : List ℤ)
      → Agree j t u
      → Tracks beats key laws u j ws
      → Tracks beats key laws t j ws
  Tracks-Agree t u j ws (f, e) r =
      let same : held t j ≡ held u j = rw f refl in
      record {
        counter = rw same r.counter;
        counts = rw same r.counts;
        extreme = rw (same, e) r.extreme;
      }
