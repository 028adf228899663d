-- ===== src/Trackers/Extreme/Keys.antt =====
-- What the trackers rely on: the first key of a map of counts is the least, the last the greatest.
use cryptobot_algo.Base.{
  ℕ, ◌-◌, ◌<◌, ◌≡◌, refl, Bool, true, false, Option, none, some, [], ◌∷◌, arith, ◌==◌,
  if◌then◌else◌, Option-cases, inl, inr,
}
use mathlib.Core.Option.{some-injective}
use cryptobot_algo.Base.Maps.{get_or}
use cryptobot_algo.Base.Int.{ℤ, eqb_ℤ, ◌<ℤ◌}
use cryptobot_algo.Trackers.Frequency.{
  Frequency, freq, increment, decrement, first_key, last_key, Above, IsCounter,
}
use cryptobot_algo.Trackers.Extreme.{lower, higher}

-- The better of a new value and the present extreme.
abbrev pub better : (ℤ → ℤ → Bool) → ℤ → Option ℤ → ℤ
better beats v none = v
better beats v (some x) = if beats v x then v else x

-- `key` reads an extreme, as measured by `beats`.
pub record IsExtreme (beats : ℤ → ℤ → Bool) (key : Frequency → Option ℤ) : Type 0 where
  pub key-none : (m : Frequency) → key m ≡ none → m ≡ []
  pub key-nil : key [] ≡ none
  pub key-increment :
      (v : ℤ) (m : Frequency) → IsCounter m → key (increment v m) ≡ some (better beats v (key m))
  pub key-decrement :
      (v x : ℤ) (m : Frequency)
      → IsCounter m
      → key m ≡ some x
      → eqb_ℤ x v ≡ false
      → key (decrement v m) ≡ some x
  pub key-held : (x : ℤ) (m : Frequency) → IsCounter m → key m ≡ some x → 0 < freq x m
  pub key-best :
      (x y : ℤ) (m : Frequency) → IsCounter m → key m ≡ some x → 0 < freq y m → beats y x ≡ false

first-none : (m : Frequency) → first_key m ≡ none → m ≡ []
unfolding first_key
first-none [] e = refl
first-none (x ∷ m) e = cc

first-increment :
    (v : ℤ) (m : Frequency)
    → IsCounter m
    → first_key (increment v m) ≡ some (better lower v (first_key m))
unfolding first_key increment
first-increment v [] i = refl
first-increment v ((k, c) ∷ m) i = ground arith

first-decrement :
    (v x : ℤ) (m : Frequency)
    → IsCounter m
    → first_key m ≡ some x
    → eqb_ℤ x v ≡ false
    → first_key (decrement v m) ≡ some x
unfolding first_key decrement
first-decrement v x [] i e h = cc
first-decrement v x ((k, c) ∷ m) i e h = let same : k ≡ x = some-injective k x e in rw (same, h)

first-held : (x : ℤ) (m : Frequency) → IsCounter m → first_key m ≡ some x → 0 < freq x m
unfolding first_key freq
first-held x [] i e = cc
first-held x ((k, c) ∷ m) i e = ground arith

above-held : (x y : ℤ) (m : Frequency) → Above x m → 0 < freq y m → x <ℤ y
unfolding freq
above-held x y [] a h = absurd (omega arith)
above-held x y ((k, c) ∷ m) (a, r) h = ground (arith, above-held x y m r)

first-best :
    (x y : ℤ) (m : Frequency)
    → IsCounter m
    → first_key m ≡ some x
    → 0 < freq y m
    → lower y x ≡ false
unfolding first_key freq
first-best x y [] i e h = cc
first-best x y ((k, c) ∷ m) (p, a, i) e h = ground (arith, above-held k y m a)

pub first-IsExtreme : IsExtreme lower first_key
unfolding first_key
first-IsExtreme = record {
  key-none = first-none;
  key-nil = refl;
  key-increment = first-increment;
  key-decrement = first-decrement;
  key-held = first-held;
  key-best = first-best;
}

last-none : (m : Frequency) → last_key m ≡ none → m ≡ []
unfolding last_key
last-none [] e = refl
last-none (x ∷ m) e = cc

above-last : (k x : ℤ) (m : Frequency) → Above k m → last_key m ≡ some x → k <ℤ x
unfolding last_key
above-last k x [] a e = cc
above-last k x ((j, c) ∷ m) (a, r) e = elim (Option-cases (last_key m)) [
  | inl f ↦ ground (arith, f)
  | inr (y, f) ↦ ground (arith, f, above-last k y m r f)
]

last-increment :
    (v : ℤ) (m : Frequency)
    → IsCounter m
    → last_key (increment v m) ≡ some (better higher v (last_key m))
unfolding last_key increment
last-increment v [] i = refl
last-increment v ((k, c) ∷ m) (p, a, i) = elim (Option-cases (last_key m)) [
  | inl f ↦ ground (arith, f, last-increment v m i)
  | inr (y, f) ↦ ground (arith, f, last-increment v m i, above-last k y m a f)
]

last-held : (x : ℤ) (m : Frequency) → IsCounter m → last_key m ≡ some x → 0 < freq x m
unfolding last_key freq
last-held x [] i e = cc
last-held x ((k, c) ∷ m) (p, a, i) e = elim (Option-cases (last_key m)) [
  | inl f ↦ ground (arith, f)
  | inr (y, f) ↦ ground (arith, f, last-held x m i)
]

last-best :
    (x y : ℤ) (m : Frequency)
    → IsCounter m
    → last_key m ≡ some x
    → 0 < freq y m
    → higher y x ≡ false
unfolding last_key freq
last-best x y [] i e h = cc
last-best x y ((k, c) ∷ []) i e h = ground arith
last-best x y ((k, c) ∷ (j, d) ∷ m) (p, a, i) e h =
    let z = get_or j (last_key m) in
    ground (arith, last-best z y ((j, d) ∷ m) i refl, above-last k z ((j, d) ∷ m) a refl)

last_behind :
    (b b' : Bool) (k x : ℤ) (c : ℕ) (m m' : Frequency)
    → last_key m ≡ some x
    → last_key m' ≡ some x
    → last_key (if b then (if b' then m else (k, c - 1) ∷ m) else (k, c) ∷ m') ≡ some x
unfolding last_key
last_behind true true k x c m m' e e' = e
last_behind true false k x c m m' e e' = rw e
last_behind false b' k x c m m' e e' = rw e'

last-decrement :
    (v x : ℤ) (m : Frequency)
    → IsCounter m
    → last_key m ≡ some x
    → eqb_ℤ x v ≡ false
    → last_key (decrement v m) ≡ some x
unfolding last_key decrement
last-decrement v x [] i e h = cc
last-decrement v x ((k, c) ∷ []) i e h = let same : k ≡ x = some-injective k x e in rw (same, h)
last-decrement v x ((k, c) ∷ (j, d) ∷ m) (p, a, i) e h =
    last_behind (eqb_ℤ k v) (c - 1 == 0) k x c ((j, d) ∷ m) (decrement v ((j, d) ∷ m)) e
      (last-decrement v x ((j, d) ∷ m) i e h)

pub last-IsExtreme : IsExtreme higher last_key
unfolding last_key
last-IsExtreme = record {
  key-none = last-none;
  key-nil = refl;
  key-increment = last-increment;
  key-decrement = last-decrement;
  key-held = last-held;
  key-best = last-best;
}
