-- ===== src/Statistics/Bins.antt =====
-- The bins of a histogram.
use cryptobot_algo.Base.{
  ℕ, suc, ◌+◌, ◌-◌, ◌*◌, ◌/◌, ◌≤◌, ◌<◌, ◌≡◌, refl, ◌∙◌, Option, some, List, [], ◌∷◌, arith, ◌==◌,
  if◌then◌else◌, length, All, Bool-cases, inl, inr,
}
use cryptobot_algo.Base.Int.{
  ℤ, pos, pos_part, neg_part, ◌-ℤ◌, ◌*ℤ◌, ◌≤ℤ◌, ◌<ℤ◌, ltb_ℤ, eqb_ℤ, eqb_ℤ-eq,
}
use cryptobot_algo.Statistics.{
  trunc_div, bin_index, Histogram, bump, count_at, fill, min_element, max_element,
  compute_histogram,
}
use native.Mathlib.Nat.{
  mul_comm, div-lt_iff_lt-mul, mul-div_cancel_left, mul-lt-mul_of_pos_right, mul-zero,
}

-- The sum of the counts.
unfoldable pub total : Histogram → ℕ
total [] = 0
total ((b, count) ∷ histogram) = count + total histogram

-- How many of the values are equal to one.
unfoldable pub occurrences : ℤ → List ℤ → ℕ
occurrences v [] = 0
occurrences v (x ∷ xs) = let rest = occurrences v xs in if eqb_ℤ x v then suc rest else rest

abbrev pub Within : ℕ → Histogram → Type 0
Within bins histogram = All (λ (e : ℤ × ℕ). (pos_part e.0 ≤ bins) × (neg_part e.0 ≡ 0)) histogram

-- A difference that is not negative.
difference :
    (lo v : ℤ)
    → lo ≤ℤ v
    → (d : ℕ) × (v -ℤ lo ≡ pos d) × (pos_part v + neg_part lo ≡ d + (neg_part v + pos_part lo))
unfolding ◌-ℤ◌
difference lo v h =
    (pos_part v + neg_part lo - (neg_part v + pos_part lo), ground arith, omega (arith, h))

times_pos : (a b : ℕ) → pos a *ℤ pos b ≡ pos (a * b)
unfolding ◌*ℤ◌
times_pos a b = ground (arith, mul-zero a)

trunc_pos : (a b : ℕ) → 0 < b → trunc_div (pos a) (pos b) ≡ some (pos (a / b))
trunc_pos a b h = ground arith

-- A part of `bins` that is not larger than the whole is at most `bins`, and is `bins` for the whole.
part_of_bins :
    (d n bins : ℕ)
    → d ≤ n
    → 0 < n
    → 0 < bins
    → (d * bins / n ≤ bins) × ((d * bins / n == bins) ≡ (d == n))
part_of_bins d n bins h w b = elim (Bool-cases (d == n)) [
  | inl whole ↦
      let same : d ≡ n = ground arith in
      rw same (
        let e : n * bins / n ≡ bins = mul-div_cancel_left bins w in
        rw e (omega arith, ground arith))
  | inr part ↦
      let less : d < n = ground arith in
      let e : d * bins / n < bins =
        (div-lt_iff_lt-mul w).1 (rw (mul_comm bins n) (mul-lt-mul_of_pos_right less b)) in
      (omega arith, ground (arith, e, part))
]

-- The index of a value between the bounds: `bins` for the largest one, and less for any other.
bin_index_between :
    (v lo hi : ℤ) (bins : ℕ)
    → lo ≤ℤ v
    → v ≤ℤ hi
    → lo <ℤ hi
    → 0 < bins
    → (k : ℕ) × (bin_index v lo hi bins ≡ some (pos k)) × (k ≤ bins) × ((k == bins) ≡ eqb_ℤ v hi)
unfolding bin_index
bin_index_between v lo hi bins l h w b =
    let (d, from, ds) = difference lo v l in
    let (n, width, ns) = difference lo hi (omega arith) in
    let (fits, last) = part_of_bins d n bins (omega (arith, ds, ns)) (omega (arith, ns, w)) b in
    (
      d * bins / n,
      rw (from, width, times_pos d bins) (trunc_pos (d * bins) n (omega (arith, ns, w))),
      fits,
      last ∙ ground (arith, ds, ns),
    )

total_nil : total [] ≡ 0
unfolding total
total_nil = refl

count_at_nil : (b : ℤ) → count_at b [] ≡ 0
unfolding count_at
count_at_nil b = refl

total-bump : (b : ℤ) (h : Histogram) → total (bump b h) ≡ suc (total h)
unfolding total bump
total-bump b [] = refl
total-bump b ((c, n) ∷ h) = ground (arith, total-bump b h)

pub count_at-bump :
    (b c : ℤ) (h : Histogram)
    → count_at c (bump b h) ≡ (if eqb_ℤ b c then suc (count_at c h) else count_at c h)
unfolding count_at bump
count_at-bump b c [] = ground arith
count_at-bump b c ((d, n) ∷ h) = elim (Bool-cases (eqb_ℤ d b)) [
  | inl same ↦ let e : d ≡ b = eqb_ℤ-eq d b same in rw (same, e) (ground arith)
  | inr other ↦ rw other (ground (arith, count_at-bump b c h))
]

bump-Within : (k bins : ℕ) (h : Histogram) → k ≤ bins → Within bins h → Within bins (bump (pos k) h)
unfolding bump
bump-Within k bins [] le w = ((le, refl), tt)
bump-Within k bins ((d, n) ∷ h) le (w, ws) = elim (Bool-cases (eqb_ℤ d (pos k))) [
  | inl same ↦ rw same (w, ws)
  | inr other ↦ rw other (w, bump-Within k bins h le ws)
]

abbrev Between : ℤ → ℤ → List ℤ → Type 0
Between lo hi values = All (λ (v : ℤ). (lo ≤ℤ v) × (v ≤ℤ hi)) values

-- What the loop adds to a histogram.
abbrev Filled : ℕ → ℤ → List ℤ → Histogram → Option Histogram → Type 0
Filled bins hi values before after =
    (h : Histogram) × (after ≡ some h)
    × Within bins h
    × (total h ≡ total before + length values)
    × (count_at (pos bins) h ≡ count_at (pos bins) before + occurrences hi values)

fill-Filled :
    (values : List ℤ) (lo hi : ℤ) (bins : ℕ) (h : Histogram)
    → Between lo hi values
    → lo <ℤ hi
    → 0 < bins
    → Within bins h
    → Filled bins hi values h (fill values lo hi bins h)
unfolding fill occurrences
fill-Filled [] lo hi bins h v w b t = (h, refl, t, omega arith, omega arith)
fill-Filled (x ∷ xs) lo hi bins h ((l, u), v) w b t =
    let (k, index, le, last) = bin_index_between x lo hi bins l u w b in
    let (h', e, t', sum, count) =
      fill-Filled xs lo hi bins (bump (pos k) h) v w b (bump-Within k bins h le t) in
    (
      h',
      rw (index, e) refl,
      t',
      omega (arith, sum, total-bump (pos k) h),
      ground (arith, count, last, count_at-bump (pos k) (pos bins) h),
    )

min_element-le :
    (x : ℤ) (xs : List ℤ) → (min_element x xs ≤ℤ x) × All (λ (v : ℤ). min_element x xs ≤ℤ v) xs
unfolding min_element
min_element-le x [] = (omega arith, tt)
min_element-le x (y ∷ ys) =
    let z : ℤ = if ltb_ℤ y x then y else x in
    let (here, rest) = min_element-le z ys in
    let zx : z ≤ℤ x = ground arith in
    let zy : z ≤ℤ y = ground arith in (omega (arith, here, zx), (omega (arith, here, zy), rest))

le-max_element :
    (x : ℤ) (xs : List ℤ) → (x ≤ℤ max_element x xs) × All (λ (v : ℤ). v ≤ℤ max_element x xs) xs
unfolding max_element
le-max_element x [] = (omega arith, tt)
le-max_element x (y ∷ ys) =
    let z : ℤ = if ltb_ℤ x y then y else x in
    let (here, rest) = le-max_element z ys in
    let zx : x ≤ℤ z = ground arith in
    let zy : y ≤ℤ z = ground arith in (omega (arith, here, zx), (omega (arith, here, zy), rest))

both :
    (lo hi : ℤ) (xs : List ℤ)
    → All (λ (v : ℤ). lo ≤ℤ v) xs
    → All (λ (v : ℤ). v ≤ℤ hi) xs
    → Between lo hi xs
both lo hi [] l u = tt
both lo hi (x ∷ xs) (l, ls) (u, us) = ((l, u), both lo hi xs ls us)

-- A histogram of values that are not all equal, with at least one bin, is computed: its bins are the
-- numbers from 0 to the number of bins, that number included, its counts sum to the number of the
-- values, and the bin past the requested ones counts the occurrences of the largest value.
pub compute_histogram_bins :
    (x : ℤ) (xs : List ℤ) (bins : ℕ)
    → min_element x xs <ℤ max_element x xs
    → 0 < bins
    → (h : Histogram) × (compute_histogram (x ∷ xs) bins ≡ some h)
      × Within bins h
      × (total h ≡ length (x ∷ xs))
      × (count_at (pos bins) h ≡ occurrences (max_element x xs) (x ∷ xs))
unfolding compute_histogram
compute_histogram_bins x xs bins w b =
    let lo = min_element x xs in
    let hi = max_element x xs in
    let (l, ls) = min_element-le x xs in
    let (u, us) = le-max_element x xs in
    let (h, e, t, sum, count) =
      fill-Filled (x ∷ xs) lo hi bins [] ((l, u), both lo hi xs ls us) w b tt in
    (h, e, t, omega (arith, sum, total_nil), omega (arith, count, count_at_nil (pos bins)))
