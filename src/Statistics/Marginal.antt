-- ===== src/Statistics/Marginal.antt =====
-- The joint histogram of two series and the histograms of each of them.
use cryptobot_algo.Base.{
  ℕ, suc, ◌+◌, ◌≡◌, refl, Option, some, List, [], ◌∷◌, arith, ◌&&◌, if◌then◌else◌, length,
  Bool-cases, Option-cases, inl, inr,
}
use cryptobot_algo.Base.Int.{ℤ, eqb_ℤ, eqb_ℤ-eq}
use cryptobot_algo.Statistics.{
  bin_index, Histogram, bump, count_at, fill, JointHistogram, bump_joint, fill_joint,
  compute_histogram, compute_joint_histogram, min_element, max_element,
}
use cryptobot_algo.Statistics.Bins.{count_at-bump}

-- The sum of the counts of the entries with one bin on the first axis, and on the second.
unfoldable pub first_axis : ℤ → JointHistogram → ℕ
first_axis b [] = 0
first_axis b (((x, y), count) ∷ joint) =
    let rest = first_axis b joint in if eqb_ℤ x b then count + rest else rest

unfoldable pub second_axis : ℤ → JointHistogram → ℕ
second_axis b [] = 0
second_axis b (((x, y), count) ∷ joint) =
    let rest = second_axis b joint in if eqb_ℤ y b then count + rest else rest

first_axis-bump_joint :
    (x y b : ℤ) (j : JointHistogram)
    → first_axis b (bump_joint x y j) ≡ (if eqb_ℤ x b then suc (first_axis b j) else first_axis b j)
unfolding first_axis bump_joint
first_axis-bump_joint x y b [] = ground arith
first_axis-bump_joint x y b (((u, v), n) ∷ j) = elim (Bool-cases (eqb_ℤ u x && eqb_ℤ v y)) [
  | inl same ↦ rw same (let e : u ≡ x = eqb_ℤ-eq u x (ground (arith, same)) in rw e (ground arith))
  | inr other ↦ rw other (ground (arith, first_axis-bump_joint x y b j))
]

second_axis-bump_joint :
    (x y b : ℤ) (j : JointHistogram)
    → second_axis b (bump_joint x y j)
      ≡ (if eqb_ℤ y b then suc (second_axis b j) else second_axis b j)
unfolding second_axis bump_joint
second_axis-bump_joint x y b [] = ground arith
second_axis-bump_joint x y b (((u, v), n) ∷ j) = elim (Bool-cases (eqb_ℤ u x && eqb_ℤ v y)) [
  | inl same ↦ rw same (let e : v ≡ y = eqb_ℤ-eq v y (ground (arith, same)) in rw e (ground arith))
  | inr other ↦ rw other (ground (arith, second_axis-bump_joint x y b j))
]

-- A step of the loop that ended well.
fill_step :
    (x : ℤ) (xs : List ℤ) (lo hi : ℤ) (bins : ℕ) (before : Histogram) {h : Histogram}
    → fill (x ∷ xs) lo hi bins before ≡ some h
    → (b : ℤ) × (bin_index x lo hi bins ≡ some b) × (fill xs lo hi bins (bump b before) ≡ some h)
unfolding fill
fill_step x xs lo hi bins before e = elim (Option-cases (bin_index x lo hi bins)) [
  | inl bad ↦ absurd (ground (arith, bad, e))
  | inr (b, index) ↦ (b, index, ground (arith, index, e))
]

-- What the loop over both series adds.
abbrev Sums :
    JointHistogram → Histogram → Histogram → Histogram → Histogram → Option JointHistogram → Type 0
Sums before x0 x1 y0 y1 after =
    (j : JointHistogram) × (after ≡ some j)
    × ((b : ℤ) → first_axis b j + count_at b x0 ≡ first_axis b before + count_at b x1)
    × ((b : ℤ) → second_axis b j + count_at b y0 ≡ second_axis b before + count_at b y1)

fill_joint-Sums :
    (xs ys : List ℤ) (lo hi lo' hi' : ℤ) (bins : ℕ) (j : JointHistogram) (x0 y0 x1 y1 : Histogram)
    → length xs ≡ length ys
    → fill xs lo hi bins x0 ≡ some x1
    → fill ys lo' hi' bins y0 ≡ some y1
    → Sums j x0 x1 y0 y1 (fill_joint xs lo hi ys lo' hi' bins j)
unfolding fill_joint
fill_joint-Sums [] [] lo hi lo' hi' bins j x0 y0 x1 y1 l ex ey =
    let same : x0 ≡ x1 = unfold fill in ground (arith, ex) in
    let same' : y0 ≡ y1 = unfold fill in ground (arith, ey) in
    (j, refl, (λ b. rw same refl), (λ b. rw same' refl))
fill_joint-Sums [] (y ∷ ys) lo hi lo' hi' bins j x0 y0 x1 y1 l ex ey = absurd (omega (arith, l))
fill_joint-Sums (x ∷ xs) [] lo hi lo' hi' bins j x0 y0 x1 y1 l ex ey = absurd (omega (arith, l))
fill_joint-Sums (x ∷ xs) (y ∷ ys) lo hi lo' hi' bins j x0 y0 x1 y1 l ex ey =
    let (b, index, ex') = fill_step x xs lo hi bins x0 ex in
    let (c, index', ey') = fill_step y ys lo' hi' bins y0 ey in
    let (j', e, sx, sy) =
      fill_joint-Sums xs ys lo hi lo' hi' bins (bump_joint b c j) (bump b x0) (bump c y0) x1 y1
        (omega (arith, l)) ex' ey' in
    (
      j',
      rw (index, index') e,
      λ a. ground (arith, sx a, first_axis-bump_joint b c a j, count_at-bump b a x0),
      λ a. ground (arith, sy a, second_axis-bump_joint b c a j, count_at-bump c a y0),
    )

nil_axis : (b : ℤ) → (first_axis b [] ≡ 0) × (second_axis b [] ≡ 0) × (count_at b [] ≡ 0)
unfolding first_axis second_axis count_at
nil_axis b = (refl, refl, refl)

-- Where the histograms of two series of one length are computed, their joint histogram is too, and
-- its counts sum along each axis to the counts of the histogram of the other series.
pub compute_joint_histogram_axes :
    (xs ys : List ℤ) (bins : ℕ) {hx hy : Histogram}
    → length xs ≡ length ys
    → compute_histogram xs bins ≡ some hx
    → compute_histogram ys bins ≡ some hy
    → (j : JointHistogram) × (compute_joint_histogram xs ys bins ≡ some j)
      × ((b : ℤ) → first_axis b j ≡ count_at b hx)
      × ((b : ℤ) → second_axis b j ≡ count_at b hy)
unfolding compute_histogram compute_joint_histogram
compute_joint_histogram_axes [] ys bins l ex ey = absurd (cc)
compute_joint_histogram_axes (x ∷ xs) [] bins l ex ey = absurd (cc)
compute_joint_histogram_axes (x ∷ xs) (y ∷ ys) bins {hx = hx} {hy = hy} l ex ey =
    let (j, e, sx, sy) =
      fill_joint-Sums (x ∷ xs) (y ∷ ys) (min_element x xs) (max_element x xs) (min_element y ys)
        (max_element y ys) bins [] [] [] hx hy l ex ey in
    (j, e, (λ b. omega (arith, sx b, nil_axis b)), (λ b. omega (arith, sy b, nil_axis b)))
