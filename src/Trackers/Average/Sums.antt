-- ===== src/Trackers/Average/Sums.antt =====
-- An average tracker against the list of the values that it holds for an asset.
use cryptobot_algo.Base.{
  ℕ, ◌+◌, ◌^◌, ◌<◌, ◌≡◌, ◌≢◌, refl, ap, ◌∙◌, false, Option, none, some, List, [], ◌∷◌, ◌++◌, arith,
  ◌==◌, length, length-append, Option-cases, Bool-cases, inl, inr,
}
use cryptobot_algo.Base.Int.{ℤ, pos, ◌+ℤ◌, ◌-ℤ◌, ◌*ℤ◌, eqb_ℤ, eqb_ℤ-eq, int_laws}
use cryptobot_algo.Trackers.Average.{
  AvgTracker, new_avg, avg_on_add, avg_on_remove, get_avg, sum_of, count_of, count_down, abs_ℤ,
  from_avg, unless_zero, get_deviation, get_deviation_ratio, get_deviation_percent,
  get_deviation_ratio_abs, get_deviation_percent_abs,
}

abbrev pub sum : List ℤ → ℤ
sum [] = pos 0
sum (v ∷ vs) = v +ℤ sum vs

pub sum-append : (vs : List ℤ) (v : ℤ) → sum (vs ++ v ∷ []) ≡ sum vs +ℤ v
sum-append [] v = omega int_laws
sum-append (w ∷ vs) v = rw (sum-append vs v) (omega int_laws)

-- The average tracker holds the values `ws` of the asset.
abbrev pub Averages : AvgTracker → ℕ → List ℤ → Type 0
Averages t h ws = (sum_of h t ≡ sum ws) × (count_of h t ≡ length ws)

pub avg_on_add-Averages :
    (h : ℕ) (v : ℤ) (t : AvgTracker) (ws : List ℤ)
    → length ws + 1 < 2 ^ 64
    → Averages t h ws
    → Averages (avg_on_add h v t) h (ws ++ v ∷ [])
unfolding avg_on_add
avg_on_add-Averages h v t ws b (e, c) =
    rw (sum-append ws v, length-append ws (v ∷ [])) (ground (arith, e, c))

pub avg_on_remove-Averages :
    (h : ℕ) (v : ℤ) (t : AvgTracker) (ws : List ℤ)
    → length ws + 1 < 2 ^ 64
    → Averages t h (v ∷ ws)
    → Averages (avg_on_remove h v t) h ws
unfolding avg_on_remove
avg_on_remove-Averages h v t ws b (e, c) =
    let sums : sum_of h t -ℤ v ≡ sum ws = rw e (omega int_laws) in
    let counts : count_down (count_of h t) ≡ length ws = rw c (omega (arith, b)) in
    ground (arith, sums, counts)

pub new_avg-Averages : (h : ℕ) → Averages new_avg h []
new_avg-Averages h = (refl, refl)

-- The mean of the values, or nothing where there are none.
abbrev pub mean : (ℤ → ℕ → ℤ) → List ℤ → Option ℤ
mean quot [] = none
mean quot (v ∷ vs) = some (quot (sum (v ∷ vs)) (length (v ∷ vs)))

asked :
    (quot : ℤ → ℕ → ℤ) (h : ℕ) (t : AvgTracker) (n : ℕ)
    → t.counts h ≡ some n
    → (n == 0) ≡ false
    → get_avg quot h t ≡ some (quot (sum_of h t) n)
unfolding get_avg
asked quot h t n f e = ground (arith, f, e)

pub get_avg-Averages :
    (quot : ℤ → ℕ → ℤ) (h : ℕ) (t : AvgTracker) (ws : List ℤ)
    → Averages t h ws
    → get_avg quot h t ≡ mean quot ws
unfolding get_avg
get_avg-Averages quot h t [] (e, c) = elim (Option-cases (t.counts h)) [
  | inl f ↦ ground (arith, f)
  | inr (n, f) ↦ ground (arith, f, c)
]
get_avg-Averages quot h t (v ∷ vs) (e, c) = elim (Option-cases (t.counts h)) [
  | inl f ↦ absurd (ground (arith, f, c))
  | inr (n, f) ↦
      let size : n ≡ length (v ∷ vs) = ground (arith, f, c) in
      let some_held : (n == 0) ≡ false = ground (arith, size) in
      asked quot h t n f some_held ∙ ap some (rw (e, size) refl)
]

abbrev pub SameSums : ℕ → AvgTracker → AvgTracker → Type 0
SameSums j t u = (t.sums j ≡ u.sums j) × (t.counts j ≡ u.counts j)

pub avg_on_add-Same :
    (h j : ℕ) (v : ℤ) (t : AvgTracker) → (h == j) ≡ false → SameSums j (avg_on_add h v t) t
unfolding avg_on_add
avg_on_add-Same h j v t e = ground (arith, e)

pub avg_on_remove-Same :
    (h j : ℕ) (v : ℤ) (t : AvgTracker) → (h == j) ≡ false → SameSums j (avg_on_remove h v t) t
unfolding avg_on_remove
avg_on_remove-Same h j v t e = ground (arith, e)

-- The answers computed from a mean: the deviation always, the relative ones where it is not 0.
abbrev pub Deviates :
    (ℤ → ℤ → ℤ) → ℤ → Option ℤ → Option ℤ → Option ℤ → Option ℤ → Option ℤ → Option ℤ → Type 0
Deviates ratio v none d r p ra pa = (d ≡ none) × (r ≡ none) × (p ≡ none) × (ra ≡ none) × (pa ≡ none)
Deviates ratio v (some a) d r p ra pa =
    (d ≡ some (v -ℤ a))
    × (a ≡ pos 0 → (r ≡ none) × (p ≡ none) × (ra ≡ none) × (pa ≡ none))
    × (a ≢ pos 0
        → (r ≡ some (ratio (v -ℤ a) a))
          × (p ≡ some (ratio (v -ℤ a) a *ℤ pos 100))
          × (ra ≡ some (ratio (abs_ℤ (v -ℤ a)) (abs_ℤ a)))
          × (pa ≡ some (ratio (abs_ℤ (v -ℤ a)) (abs_ℤ a) *ℤ pos 100)))

module _ (quot : ℤ → ℕ → ℤ) (ratio : ℤ → ℤ → ℤ) (h : ℕ) (t : AvgTracker) (a : ℤ) where
  from_avg-some : (f : ℤ → Option ℤ) → get_avg quot h t ≡ some a → from_avg quot ratio h t f ≡ f a
  from_avg-some f e = ground (arith, e)

  unless_zero-none :
      (g : ℤ → ℤ)
      → get_avg quot h t ≡ some a
      → a ≡ pos 0
      → from_avg quot ratio h t (λ x. unless_zero quot ratio x (g x)) ≡ none
  unless_zero-none g e z = from_avg-some (λ x. unless_zero quot ratio x (g x)) e ∙ rw z refl

  unless_zero-some :
      (g : ℤ → ℤ)
      → get_avg quot h t ≡ some a
      → a ≢ pos 0
      → from_avg quot ratio h t (λ x. unless_zero quot ratio x (g x)) ≡ some (g a)
  unless_zero-some g e z = elim (Bool-cases (eqb_ℤ a (pos 0))) [
    | inl same ↦ absurd (z (eqb_ℤ-eq a (pos 0) same))
    | inr other ↦ from_avg-some (λ x. unless_zero quot ratio x (g x)) e ∙ rw other refl
  ]

pub deviations :
    (quot : ℤ → ℕ → ℤ) (ratio : ℤ → ℤ → ℤ) (h : ℕ) (v : ℤ) (t : AvgTracker) (o : Option ℤ)
    → get_avg quot h t ≡ o
    → Deviates ratio v o
        (get_deviation quot ratio h v t)
        (get_deviation_ratio quot ratio h v t)
        (get_deviation_percent quot ratio h v t)
        (get_deviation_ratio_abs quot ratio h v t)
        (get_deviation_percent_abs quot ratio h v t)
unfolding get_deviation get_deviation_ratio get_deviation_percent get_deviation_ratio_abs
    get_deviation_percent_abs
deviations quot ratio h v t none e = ground (arith, e)
deviations quot ratio h v t (some a) e =
    let none_of = λ (g : ℤ → ℤ) (z : a ≡ pos 0). unless_zero-none quot ratio h t a g e z in
    let some_of = λ (g : ℤ → ℤ) (z : a ≢ pos 0). unless_zero-some quot ratio h t a g e z in
    let r : ℤ → ℤ = λ x. ratio (v -ℤ x) x in
    let ra : ℤ → ℤ = λ x. ratio (abs_ℤ (v -ℤ x)) (abs_ℤ x) in
    let p : ℤ → ℤ = λ x. r x *ℤ pos 100 in
    let pa : ℤ → ℤ = λ x. ra x *ℤ pos 100 in
    (
      from_avg-some quot ratio h t a (λ x. some (v -ℤ x)) e,
      λ z. (none_of r z, none_of p z, none_of ra z, none_of pa z),
      λ z. (some_of r z, some_of p z, some_of ra z, some_of pa z),
    )
