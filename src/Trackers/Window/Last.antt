-- ===== src/Trackers/Window/Last.antt =====
-- The window of an asset against the newest values of the asset.
use cryptobot_algo.Base.{
  ℕ, zero, suc, ◌+◌, ◌-◌, ◌≤◌, ◌≡◌, refl, ap, ◌∙◌, List, [], ◌∷◌, ◌++◌, arith, ◌==◌, ltb,
  if◌then◌else◌, if-intro, length, drop, length-append,
}
use cryptobot_algo.Base.Int.{ℤ}

-- The values of an asset in a history.
abbrev pub values_of : ℕ → List (ℕ × ℤ) → List ℤ
values_of h [] = []
values_of h ((j, v) ∷ xs) = if j == h then v ∷ values_of h xs else values_of h xs

-- The last `n` values of a list.
abbrev pub last : ℕ → List ℤ → List ℤ
last n vs = drop (length vs - n) vs

-- A new value enters a window, which drops its first value where it is too long.
abbrev pub slide : ℕ → ℤ → List ℤ → List ℤ
slide n v w = if ltb n (length (w ++ v ∷ [])) then drop 1 (w ++ v ∷ []) else w ++ v ∷ []

pub drop-nil : (k : ℕ) → drop {A = ℤ} k [] ≡ []
drop-nil zero = refl
drop-nil (suc k) = refl

drop-append :
    (k : ℕ) (vs : List ℤ) (v : ℤ) → k ≤ length vs → drop k (vs ++ v ∷ []) ≡ drop k vs ++ v ∷ []
drop-append zero vs v h = refl
drop-append (suc k) [] v h = absurd (omega arith)
drop-append (suc k) (x ∷ vs) v h = drop-append k vs v (omega arith)

drop_one : (k : ℕ) (vs : List ℤ) → drop 1 (drop k vs) ≡ drop (suc k) vs
drop_one zero [] = refl
drop_one zero (x ∷ vs) = refl
drop_one (suc k) [] = refl
drop_one (suc k) (x ∷ vs) = drop_one k vs

length-drop : (k : ℕ) (vs : List ℤ) → length (drop k vs) ≡ length vs - k
length-drop zero vs = omega arith
length-drop (suc k) [] = omega arith
length-drop (suc k) (x ∷ vs) = omega (arith, length-drop k vs)

pub length-last :
    (n : ℕ) (vs : List ℤ) → length (last n vs) ≡ (if ltb n (length vs) then n else length vs)
length-last n vs = ground (arith, length-drop (length vs - n) vs)

slide_index :
    (m n : ℕ) (xs : List ℤ)
    → (if ltb n (m - (m - n) + 1) then drop (suc (m - n)) xs else drop (m - n) xs)
      ≡ drop (m + 1 - n) xs
slide_index m n xs =
    if-intro (λ r. r ≡ drop (m + 1 - n) xs) (ltb n (m - (m - n) + 1))
      (λ e. let same : suc (m - n) ≡ m + 1 - n = ground (arith, e) in ap (λ j. drop j xs) same)
      (λ e. let same : m - n ≡ m + 1 - n = ground (arith, e) in ap (λ j. drop j xs) same)

pub slide-last : (n : ℕ) (v : ℤ) (vs : List ℤ) → slide n v (last n vs) ≡ last n (vs ++ v ∷ [])
slide-last n v vs =
    let k = length vs - n in
    let grown : length (vs ++ v ∷ []) ≡ length vs + 1 = length-append vs (v ∷ []) in
    let size : length (last n vs ++ v ∷ []) ≡ length vs - k + 1 =
      length-append (last n vs) (v ∷ []) ∙ ap (λ l. l + 1) (length-drop k vs) in
    let push = drop-append k vs v (omega arith) in
    rw (size, grown, ← push, drop_one k (vs ++ v ∷ [])) (slide_index (length vs) n (vs ++ v ∷ []))
