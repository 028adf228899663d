-- ===== src/Pool/Free.antt =====
-- Which blocks of a pool are free, and when the search for the next one ends.
use cryptobot_algo.Base.{
  ℕ, zero, suc, ◌+◌, ◌<◌, ◌≤◌, ◌≡◌, ◌≢◌, refl, ◌∙◌, true, none, some, List, [], ◌∷◌, ◌==◌, arith,
  leb, ◌-◌, if◌then◌else◌, Bool-cases, Option-cases, inl, inr, length,
}
use cryptobot_algo.Base.Arrays.{get_elem?, sum_by, sum_by-ge, lt_of_get_elem?}
use cryptobot_algo.Pool.{ObjectBlock, advance, update_next_free_index}

-- The index after `d` steps of the search.
abbrev walk : ℕ → ℕ → ℕ → ℕ
walk size zero i = i
walk size (suc d) i = walk size d (advance size i)

advance-below : (size i : ℕ) → i + 1 < size → advance size i ≡ i + 1
unfolding advance
advance-below size i h = ground (arith, h)

advance-last : (size i : ℕ) → i + 1 ≡ size → advance size i ≡ 0
unfolding advance
advance-last size i h = ground (arith, h)

advance-lt : (size i : ℕ) → i < size → advance size i < size
unfolding advance
advance-lt size i h = ground (arith, h)

walk-below : (size d i : ℕ) → i + d < size → walk size d i ≡ i + d
walk-below size zero i h = omega arith
walk-below size (suc d) i h =
    rw (advance-below size i (omega (arith, h)))
      (walk-below size d (i + 1) (omega (arith, h)) ∙ omega arith)

-- Past the end the walk goes on at the start.
walk-over : (size d i j : ℕ) → i < size → j < size → i + d ≡ size + j → walk size d i ≡ j
walk-over size zero i j h g e = absurd (omega (arith, h, e))
walk-over size (suc d) i j h g e = elim (Bool-cases (i + 1 == size)) [
  | inl last ↦
      rw (advance-last size i (ground (arith, last)))
        (walk-below size d 0 (ground (arith, e, g, last)) ∙ ground (arith, e, last))
  | inr more ↦
      rw (advance-below size i (ground (arith, h, more)))
        (walk-over size d (i + 1) j (ground (arith, h, more)) g (omega (arith, e)))
]

walk-reaches : (size i j : ℕ) → i < size → j < size → (d : ℕ) × (d < size) × (walk size d i ≡ j)
walk-reaches size i j h g = elim (Bool-cases (leb i j)) [
  | inl le ↦ (
    j - i,
    ground (arith, h, g, le),
    walk-below size (j - i) i (ground (arith, g, le)) ∙ ground (arith, le),
  )
  | inr gt ↦ (
    size - i + j,
    ground (arith, h, g, gt),
    walk-over size (size - i + j) i j h g (ground (arith, h, gt)),
  )
]

module _ {T : Type 0} where
  abbrev pub free_of : ObjectBlock T → ℕ
  free_of b = if b.is_free then 1 else 0

  abbrev pub free_count : List (ObjectBlock T) → ℕ
  free_count store = sum_by free_of store

  -- The block at an index is free.
  abbrev pub FreeAt : List (ObjectBlock T) → ℕ → Type 0
  FreeAt store i = (b : ObjectBlock T) × (get_elem? store i ≡ some b) × (b.is_free ≡ true)

  some_free : (store : List (ObjectBlock T)) → 0 < free_count store → (j : ℕ) × FreeAt store j
  unfolding sum_by
  some_free [] h = absurd (omega (arith, h))
  some_free (b ∷ store) h = elim (Bool-cases b.is_free) [
    | inl e ↦ (0, (b, refl, e))
    | inr e ↦ let (j, free) = some_free store (omega (arith, rw e at h)) in (suc j, free)
  ]

  -- No block is free: the search never answers.
  pub search-full :
      (fuel i : ℕ) (store : List (ObjectBlock T))
      → free_count store ≡ 0
      → update_next_free_index fuel store i ≡ none
  unfolding update_next_free_index
  search-full zero i store h = refl
  search-full (suc fuel) i store h = elim (Option-cases (get_elem? store i)) [
    | inl e ↦ rw (update_next_free_index, e) refl
    | inr (b, e) ↦ elim (Bool-cases b.is_free) [
      | inl f ↦
          let x : free_of b ≤ free_count store = sum_by-ge free_of store i b e in
          absurd (omega (arith, h, rw f at x))
      | inr f ↦
          rw (update_next_free_index, e, f) (search-full fuel (advance (length store) i) store h)
    ]
  ]

  in_bounds : (store : List (ObjectBlock T)) (i : ℕ) → i < length store → get_elem? store i ≢ none
  in_bounds [] i h e = omega (arith, h)
  in_bounds (b ∷ store) zero h e = cc
  in_bounds (b ∷ store) (suc i) h e = in_bounds store i (omega (arith, h)) e

  -- A free block on the way: the search ends at a free block.
  search-walk :
      (d fuel i : ℕ) (store : List (ObjectBlock T))
      → d < fuel
      → i < length store
      → FreeAt store (walk (length store) d i)
      → (k : ℕ) × (update_next_free_index fuel store i ≡ some k) × FreeAt store k
  unfolding update_next_free_index
  search-walk d zero i store g h f = absurd (omega (arith, g))
  search-walk zero (suc fuel) i store g h (b, e, t) =
      rw (update_next_free_index, e, t) (i, refl, (b, e, t))
  search-walk (suc d) (suc fuel) i store g h f = elim (Option-cases (get_elem? store i)) [
    | inl e ↦ absurd (in_bounds store i h e)
    | inr (b, e) ↦ elim (Bool-cases b.is_free) [
      | inl t ↦ rw (update_next_free_index, e, t) (i, refl, (b, e, t))
      | inr t ↦
          rw (update_next_free_index, e, t)
            (search-walk d fuel (advance (length store) i) store (omega (arith, g))
              (advance-lt (length store) i h) f)
    ]
  ]

  -- Where a block is free, as many rounds as there are blocks find one.
  pub search-finds :
      (store : List (ObjectBlock T)) (i : ℕ)
      → i < length store
      → 0 < free_count store
      → (k : ℕ) × (update_next_free_index (length store) store i ≡ some k) × FreeAt store k
  search-finds store i h pos =
      let (j, (b, e, t)) = some_free store pos in
      let (d, lt, w) = walk-reaches (length store) i j h (lt_of_get_elem? store j b e) in
      search-walk d (length store) i store lt h (rw w (b, e, t))
