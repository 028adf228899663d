-- ===== src/Parsers/Doc.antt =====
-- What the parsers use of simdjson.
use Prim.Native.String.{String}
use cryptobot_algo.Base.{ℕ, Bool, true, false, Option, List, none, some}
use cryptobot_algo.Base.Int.{ℤ}

-- A value, with the reading of a member by its key and type; `first` and `second` read the elements of
-- an entry that is an array of two texts. Prices and quantities of the order book are natural numbers.
pub record DocApi : Type 1 where
  pub Doc : Type 0
  pub get_string : String → Doc → Option String
  pub get_uint64 : String → Doc → Option ℕ
  pub get_uint64_in_string : String → Doc → Option ℕ
  pub get_double_in_string : String → Doc → Option ℤ
  pub get_object : String → Doc → Option Doc
  pub get_array : String → Doc → Option (List Doc)
  pub first : Doc → Option ℕ
  pub second : Doc → Option ℕ

-- A step that may fail.
infixl 5 ◌>>=◌ ◌>>◌
abbrev pub ◌>>=◌ : {A B : Type 0} → Option A → (A → Option B) → Option B
none >>= f = none
some a >>= f = f a

abbrev pub ◌>>◌ : {B : Type 0} → Option (Unit {0}) → Option B → Option B
none >> k = none
some u >> k = k

-- What follows only if a test holds.
abbrev pub guard : Bool → Option (Unit {0})
guard true = some tt
guard false = none
