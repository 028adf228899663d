-- ===== src/Base/Texts.antt =====
-- Dictionaries whose keys are compared by a test, and the test on texts.
use Prim.Native.String.{String}
use mathlib.Core.Path.{◌≡◌}
use mathlib.Core.Logic.{inl, inr}
use mathlib.Core.Bool.{Bool, true}
use mathlib.Core.Option.{Option, none, some}
use mathlib.Core.List.{List, [], ◌∷◌}
use text.Mathlib.Text.{◌==◌ as str_eq}
use text.Mathlib.TextEquality.{eq_iff}
use cryptobot_algo.Base.Bools.{if◌then◌else◌, Bool-cases}
use cryptobot_algo.Base.Lists.{All}

abbrev pub eqb_str : String → String → Bool
eqb_str s t = str_eq s t

pub eqb_str-eq : (s t : String) → eqb_str s t ≡ true → s ≡ t
eqb_str-eq s t h = (eq_iff s t).0 h

module _ {K V : Type 0} where
  -- The value of the first key that the test accepts.
  abbrev pub find : (K → Bool) → List (K × V) → Option V
  find test [] = none
  find test ((k, v) ∷ rest) = if test k then some v else find test rest

  -- What holds of all entries whose key passes the test holds of what is found.
  pub find-All :
      (P : V → Type 0) (test : K → Bool) (entries : List (K × V)) (v : V)
      → All (λ e. test e.0 ≡ true → P e.1) entries
      → find test entries ≡ some v
      → P v
  find-All P test [] v all h = absurd (cc)
  find-All P test ((k, w) ∷ rest) v (p, all) h = elim (Bool-cases (test k)) [
    | inl yes' ↦ let e : some w ≡ some v = rw yes' at h in let e' : w ≡ v = cc in rw e' at (p yes')
    | inr no' ↦ let h' : find test rest ≡ some v = rw no' at h in find-All P test rest v all h'
  ]
