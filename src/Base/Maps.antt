-- ===== src/Base/Maps.antt =====
-- `std::unordered_map` with integer keys, as a partial function: what `find` answers for each key.
use cryptobot_algo.Base.Bools.{if◌then◌else◌, ◌==◌}
use Prim.Native.Nat.{ℕ}
use mathlib.Core.Path.{◌≡◌}
use mathlib.Core.Bool.{Bool, true, false}
use mathlib.Core.Option.{Option, none, some}
use native.Mathlib.Omega.{arith}

abbrev pub Map {ℓ} : Type ℓ → Type ℓ
Map V = ℕ → Option V

module _ {ℓ} {V : Type ℓ} where
  abbrev pub empty : Map V
  empty k = none

  -- `m[k] = v`
  abbrev pub insert : ℕ → V → Map V → Map V
  insert k v m j = if k == j then some v else m j

  -- `m.erase(k)`
  abbrev pub erase : ℕ → Map V → Map V
  erase k m j = if k == j then none else m j

  -- The value that `m[k]` refers to: a default where the key is new.
  abbrev pub get_or : V → Option V → V
  get_or d none = d
  get_or d (some v) = v

  abbrev pub contains : Option V → Bool
  contains none = false
  contains (some v) = true

  pub insert_self : (k : ℕ) (v : V) (m : Map V) → insert k v m k ≡ some v
  insert_self k v m = ground arith

  pub erase_self : (k : ℕ) (m : Map V) → erase k m k ≡ none
  erase_self k m = ground arith
