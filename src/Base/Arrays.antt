-- ===== src/Base/Arrays.antt =====
-- Lists that are read and written by index, and sums over them.
use Prim.Native.Nat.{ℕ, zero, suc, ◌+◌, ◌≤◌}
use mathlib.Core.Path.{◌≡◌, refl, ap}
use mathlib.Core.Logic.{◌≢◌}
use mathlib.Core.List.{List, [], ◌∷◌, ◌++◌}
use mathlib.Core.Option.{Option, none, some}
use native.Mathlib.Omega.{arith}
use cryptobot_algo.Base.Lists.{length}

module _ {ℓ} {A : Type ℓ} where
  abbrev pub get_elem? : List A → ℕ → Option A
  get_elem? [] i = none
  get_elem? (x ∷ xs) zero = some x
  get_elem? (x ∷ xs) (suc i) = get_elem? xs i

  -- A write out of bounds changes nothing.
  abbrev pub set : List A → ℕ → A → List A
  set [] i v = []
  set (x ∷ xs) zero v = v ∷ xs
  set (x ∷ xs) (suc i) v = x ∷ set xs i v

  unfoldable pub sum_by : (A → ℕ) → List A → ℕ
  sum_by w [] = 0
  sum_by w (x ∷ xs) = w x + sum_by w xs

  pub sum_by-cons : (w : A → ℕ) (x : A) (xs : List A) → sum_by w (x ∷ xs) ≡ w x + sum_by w xs
  unfolding sum_by
  sum_by-cons w x xs = refl

  pub sum_by-nil : (w : A → ℕ) → sum_by w [] ≡ 0
  unfolding sum_by
  sum_by-nil w = refl

  pub sum_by-append : (w : A → ℕ) (xs ys : List A) → sum_by w (xs ++ ys) ≡ sum_by w xs + sum_by w ys
  unfolding sum_by
  sum_by-append w [] ys = omega arith
  sum_by-append w (x ∷ xs) ys = omega (arith, sum_by-append w xs ys)

  pub sum_by-snoc : (w : A → ℕ) (xs : List A) (y : A) → sum_by w (xs ++ y ∷ []) ≡ sum_by w xs + w y
  unfolding sum_by
  sum_by-snoc w [] y = omega arith
  sum_by-snoc w (x ∷ xs) y = omega (arith, sum_by-snoc w xs y)

  pub sum_by-set :
      (w : A → ℕ) (xs : List A) (i : ℕ) (x y : A)
      → get_elem? xs i ≡ some x
      → sum_by w (set xs i y) + w x ≡ sum_by w xs + w y
  unfolding sum_by
  sum_by-set w [] i x y h = absurd (cc)
  sum_by-set w (z ∷ xs) zero x y h = let e : z ≡ x = cc in rw e (omega arith)
  sum_by-set w (z ∷ xs) (suc i) x y h = omega (arith, sum_by-set w xs i x y h)

  pub sum_by_mono : (w u : A → ℕ) (xs : List A) → ((x : A) → w x ≤ u x) → sum_by w xs ≤ sum_by u xs
  unfolding sum_by
  sum_by_mono w u [] h = omega arith
  sum_by_mono w u (x ∷ xs) h = omega (arith, h x, sum_by_mono w u xs h)

  pub sum_by-le-length : (w : A → ℕ) (xs : List A) → ((x : A) → w x ≤ 1) → sum_by w xs ≤ length xs
  unfolding sum_by
  sum_by-le-length w [] h = omega arith
  sum_by-le-length w (x ∷ xs) h = omega (arith, h x, sum_by-le-length w xs h)

  pub sum_by-ge :
      (w : A → ℕ) (xs : List A) (i : ℕ) (x : A) → get_elem? xs i ≡ some x → w x ≤ sum_by w xs
  unfolding sum_by
  sum_by-ge w [] i x h = absurd (cc)
  sum_by-ge w (z ∷ xs) zero x h = let e : z ≡ x = cc in rw e (omega arith)
  sum_by-ge w (z ∷ xs) (suc i) x h = omega (arith, sum_by-ge w xs i x h)

  pub get_elem?-snoc : (xs : List A) (y : A) → get_elem? (xs ++ y ∷ []) (length xs) ≡ some y
  get_elem?-snoc [] y = refl
  get_elem?-snoc (x ∷ xs) y = get_elem?-snoc xs y

  pub set-snoc : (xs : List A) (x y : A) → set (xs ++ x ∷ []) (length xs) y ≡ xs ++ y ∷ []
  set-snoc [] x y = refl
  set-snoc (z ∷ xs) x y = ap (λ (zs : List A). z ∷ zs) (set-snoc xs x y)

  -- An element that is there stays where it is when others are added.
  pub get_elem?-append :
      (xs ys : List A) (i : ℕ) (x : A) → get_elem? xs i ≡ some x → get_elem? (xs ++ ys) i ≡ some x
  get_elem?-append [] ys i x h = absurd (cc)
  get_elem?-append (z ∷ xs) ys zero x h = h
  get_elem?-append (z ∷ xs) ys (suc i) x h = get_elem?-append xs ys i x h

  pub get_elem?-set_self :
      (xs : List A) (i : ℕ) (x y : A) → get_elem? xs i ≡ some x → get_elem? (set xs i y) i ≡ some y
  get_elem?-set_self [] i x y h = absurd (cc)
  get_elem?-set_self (z ∷ xs) zero x y h = refl
  get_elem?-set_self (z ∷ xs) (suc i) x y h = get_elem?-set_self xs i x y h

  pub get_elem?-set_other :
      (xs : List A) (i j : ℕ) (y : A) → i ≢ j → get_elem? (set xs i y) j ≡ get_elem? xs j
  get_elem?-set_other [] i j y h = refl
  get_elem?-set_other (z ∷ xs) zero zero y h = absurd (h refl)
  get_elem?-set_other (z ∷ xs) zero (suc j) y h = refl
  get_elem?-set_other (z ∷ xs) (suc i) zero y h = refl
  get_elem?-set_other (z ∷ xs) (suc i) (suc j) y h =
      get_elem?-set_other xs i j y (λ e. h (omega arith))

  pub lt_of_get_elem? : (xs : List A) (i : ℕ) (x : A) → get_elem? xs i ≡ some x → suc i ≤ length xs
  lt_of_get_elem? [] i x h = absurd (cc)
  lt_of_get_elem? (z ∷ xs) zero x h = omega arith
  lt_of_get_elem? (z ∷ xs) (suc i) x h = omega (arith, lt_of_get_elem? xs i x h)

  pub length-set : (xs : List A) (i : ℕ) (y : A) → length (set xs i y) ≡ length xs
  length-set [] i y = refl
  length-set (z ∷ xs) zero y = refl
  length-set (z ∷ xs) (suc i) y = omega (arith, length-set xs i y)
