-- ===== src/Trackers/Extreme.antt =====
-- aos/min_tracker/min_tracker.h and aos/max_tracker/max_tracker.h. The two differ in the test by which
-- a new value replaces the element, and in the end of the map that is read after a removal; these are
-- the parameters `beats` and `key`. Values are counted by `size_t`: no count can reach 2^64, as each
-- held value takes memory.
pub mod Keys
pub mod Tracks
pub mod Others
use cryptobot_algo.Base.{
  ℕ, Bool, true, false, Option, none, some, List, [], ◌∷◌, ◌==◌, if◌then◌else◌,
}
use cryptobot_algo.Base.Int.{ℤ, pos, ltb_ℤ, eqb_ℤ}
use cryptobot_algo.Base.Maps.{Map, empty, insert, erase, get_or, contains}
use cryptobot_algo.Trackers.Frequency.{Frequency, freq, increment, decrement, first_key, last_key}

pub record Tracker : Type 0 where
  pub frequency : Map Frequency
  pub element : Map ℤ

abbrev pub new_tracker : Tracker
new_tracker = record { frequency = empty; element = empty }

-- The first `if` of `OnAdd`: an asset without an element starts afresh.
abbrev pub prepare : ℕ → ℤ → Tracker → Tracker
prepare h v t =
    if contains (t.element h)
    then t
    else record { frequency = insert h [] t.frequency; element = insert h v t.element }

module _ (beats : ℤ → ℤ → Bool) where
  abbrev pub count_in : ℕ → ℤ → Tracker → Tracker
  count_in h v t = record {
    frequency = insert h (increment v (get_or [] (t.frequency h))) t.frequency;
    element = if beats v (get_or (pos 0) (t.element h)) then insert h v t.element else t.element;
  }

  pub on_add : ℕ → ℤ → Tracker → Tracker
  on_add h v t = count_in h v (prepare h v t)

module _ (key : Frequency → Option ℤ) where
  -- The element of an asset from which a value was taken, with the map that is left.
  abbrev pub reselect : ℕ → ℤ → Frequency → Tracker → Map ℤ
  reselect h v left t =
      let current = get_or (pos 0) (t.element h) in
      if eqb_ℤ current v
      then (elim (key left) [ none ↦ erase h t.element | some x ↦ insert h x t.element ])
      else insert h current t.element

  abbrev pub count_out : ℕ → ℤ → Frequency → Tracker → Tracker
  count_out h v left t = record {
    frequency = insert h left t.frequency;
    element = reselect h v left t;
  }

  pub on_remove : ℕ → ℤ → Tracker → Tracker
  on_remove h v t = elim (t.frequency h) [
    | none ↦ t
    | some m ↦ if freq v m == 0 then t else count_out h v (decrement v m) t
  ]

-- `GetMin` and `GetMax`.
abbrev pub get_element : ℕ → Tracker → Option ℤ
get_element h t = t.element h

-- `min_element_[h] > value`, and `max_element_[h] < value`.
abbrev pub lower : ℤ → ℤ → Bool
lower v current = ltb_ℤ v current

abbrev pub higher : ℤ → ℤ → Bool
higher v current = ltb_ℤ current v

abbrev pub min_on_add : ℕ → ℤ → Tracker → Tracker
min_on_add = on_add lower

abbrev pub min_on_remove : ℕ → ℤ → Tracker → Tracker
min_on_remove = on_remove first_key

abbrev pub max_on_add : ℕ → ℤ → Tracker → Tracker
max_on_add = on_add higher

abbrev pub max_on_remove : ℕ → ℤ → Tracker → Tracker
max_on_remove = on_remove last_key

-- The pooled class has the same text.
abbrev pub pooled_max_on_add : ℕ → ℤ → Tracker → Tracker
pooled_max_on_add = max_on_add

abbrev pub pooled_max_on_remove : ℕ → ℤ → Tracker → Tracker
pooled_max_on_remove = max_on_remove
