-- ===== src/Trackers/Frequency.antt =====
-- `std::map<T, size_t>`, which counts how often each value is held: a list in ascending order.
use cryptobot_algo.Base.{
  ℕ, suc, ◌+◌, ◌-◌, ◌<◌, ◌≡◌, refl, Bool, true, false, Option, none, some, List, [], ◌∷◌, arith,
  ◌==◌, if◌then◌else◌, All, Bool-cases, inl, inr, ◌∙◌,
}
use cryptobot_algo.Base.Maps.{get_or}
use cryptobot_algo.Base.Int.{ℤ, ltb_ℤ, eqb_ℤ, eqb_ℤ-eq, eqb_ℤ_refl, ◌<ℤ◌}

abbrev pub Frequency : Type 0
Frequency = List (ℤ × ℕ)

-- `m.find(v)->second`; 0 is `end()`, since an entry that falls to 0 is erased.
unfoldable pub freq : ℤ → Frequency → ℕ
freq v [] = 0
freq v ((k, c) ∷ m) = if eqb_ℤ k v then c else freq v m

-- `m[v]++`.
unfoldable pub increment : ℤ → Frequency → Frequency
increment v [] = (v, 1) ∷ []
increment v ((k, c) ∷ m) =
    if eqb_ℤ k v
    then (k, c + 1) ∷ m
    else if ltb_ℤ v k
    then (v, 1) ∷ (k, c) ∷ m
    else (k, c) ∷ increment v m

-- `--(it->second)`, and the entry is erased where it falls to 0.
unfoldable pub decrement : ℤ → Frequency → Frequency
decrement v [] = []
decrement v ((k, c) ∷ m) =
    if eqb_ℤ k v then (if c - 1 == 0 then m else (k, c - 1) ∷ m) else (k, c) ∷ decrement v m

-- `begin()->first` and `rbegin()->first`.
unfoldable pub first_key : Frequency → Option ℤ
first_key [] = none
first_key ((k, c) ∷ m) = some k

unfoldable pub last_key : Frequency → Option ℤ
last_key [] = none
last_key ((k, c) ∷ m) = some (get_or k (last_key m))

abbrev pub Above : ℤ → Frequency → Type 0
Above k = All (λ e. k <ℤ e.0)

-- Keys ascend and counts are positive.
abbrev pub IsCounter : Frequency → Type 0
IsCounter [] = Unit
IsCounter ((k, c) ∷ m) = (0 < c) × Above k m × IsCounter m

pub Above-trans : (j k : ℤ) (m : Frequency) → j <ℤ k → Above k m → Above j m
Above-trans j k [] h a = tt
Above-trans j k ((x, c) ∷ m) h (a, as') = (omega arith, Above-trans j k m h as')

pub freq-Above : (v : ℤ) (m : Frequency) → Above v m → freq v m ≡ 0
unfolding freq
freq-Above v [] a = refl
freq-Above v ((x, c) ∷ m) (a, r) = ground (arith, freq-Above v m r)

increment-Above : (k v : ℤ) (m : Frequency) → k <ℤ v → Above k m → Above k (increment v m)
unfolding increment
increment-Above k v [] h a = (h, tt)
increment-Above k v ((x, c) ∷ m) h (a, r) = ground (arith, increment-Above k v m h r)

pub increment-IsCounter : (v : ℤ) (m : Frequency) → IsCounter m → IsCounter (increment v m)
unfolding increment
increment-IsCounter v [] i = (omega arith, tt, tt)
increment-IsCounter v ((k, c) ∷ m) (p, a, i) =
    ground (arith, increment-IsCounter v m i, increment-Above k v m, Above-trans v k m)

decrement-Above : (k v : ℤ) (m : Frequency) → Above k m → Above k (decrement v m)
unfolding decrement
decrement-Above k v [] a = tt
decrement-Above k v ((x, c) ∷ m) (a, r) = ground (arith, decrement-Above k v m r)

pub decrement-IsCounter : (v : ℤ) (m : Frequency) → IsCounter m → IsCounter (decrement v m)
unfolding decrement
decrement-IsCounter v [] i = tt
decrement-IsCounter v ((k, c) ∷ m) (p, a, i) =
    ground (arith, decrement-IsCounter v m i, decrement-Above k v m a)

freq_same : (v w : ℤ) (m : Frequency) → eqb_ℤ v w ≡ true → freq w m ≡ freq v m
freq_same v w m e = let same : v ≡ w = ground arith in rw same

pub freq-increment :
    (v w : ℤ) (m : Frequency)
    → IsCounter m
    → freq w (increment v m) ≡ (if eqb_ℤ v w then suc (freq w m) else freq w m)
unfolding freq increment
freq-increment v w [] i = ground arith
freq-increment v w ((k, c) ∷ m) (p, a, i) =
    ground (arith, freq-increment v w m i, freq-Above v m, Above-trans v k m, freq_same v w m)

freq_drop :
    (k w : ℤ) (c : ℕ) (m : Frequency)
    → Above k m
    → freq w (if c - 1 == 0 then m else (k, c - 1) ∷ m) ≡ (if eqb_ℤ k w then c - 1 else freq w m)
unfolding freq
freq_drop k w c m a = elim (Bool-cases (eqb_ℤ k w)) [
  | inr miss ↦ rw miss (ground (arith, miss))
  | inl hit ↦ rw hit (ground (arith, hit, freq_same k w m hit, freq-Above k m a))
]

hit_cases :
    (b : Bool) (c f : ℕ)
    → (if b then c - 1 else f) ≡ (if b then (if b then c else f) - 1 else (if b then c else f))
hit_cases true c f = refl
hit_cases false c f = refl

miss_cases :
    (a b : Bool) (c f g : ℕ)
    → (a ≡ true → b ≡ false)
    → g ≡ (if b then f - 1 else f)
    → (if a then c else g) ≡ (if b then (if a then c else f) - 1 else (if a then c else f))
miss_cases a b c f g h e = ground arith

apart : (k v w : ℤ) → eqb_ℤ k v ≡ false → eqb_ℤ k w ≡ true → eqb_ℤ v w ≡ false
apart k v w h e =
    let same : k ≡ w = eqb_ℤ-eq k w e in
    elim (Bool-cases (eqb_ℤ v w)) [
      | inr f ↦ f
      | inl f ↦
          let also : v ≡ w = eqb_ℤ-eq v w f in
          let hit : eqb_ℤ k v ≡ true = rw (same, also) (eqb_ℤ_refl w) in cc
    ]

pub freq-decrement :
    (v w : ℤ) (m : Frequency)
    → IsCounter m
    → freq w (decrement v m) ≡ (if eqb_ℤ v w then freq w m - 1 else freq w m)
unfolding freq decrement
freq-decrement v w [] i = ground arith
freq-decrement v w ((k, c) ∷ m) (p, a, i) = elim (Bool-cases (eqb_ℤ k v)) [
  | inl hit ↦
      let same : k ≡ v = eqb_ℤ-eq k v hit in
      rw (hit, ← same) (freq_drop k w c m a ∙ hit_cases (eqb_ℤ k w) c (freq w m))
  | inr miss ↦ rw miss (
      miss_cases (eqb_ℤ k w) (eqb_ℤ v w) c (freq w m) (freq w (decrement v m)) (apart k v w miss)
        (freq-decrement v w m i))
]
