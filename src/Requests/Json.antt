-- ===== src/Requests/Json.antt =====
-- What the requests use of nlohmann::json: an object whose members are texts.
use Prim.Native.String.{String}
use cryptobot_algo.Base.{◌≡◌, Option, none, some, if◌then◌else◌}
use cryptobot_algo.Base.Texts.{eqb_str}

-- `j[key] = text` adds a member or overwrites the one that is there; `at` reads a member. A value that
-- is null has none.
pub record JsonApi : Type 1 where
  pub Json : Type 0
  pub null : Json
  pub put : String → String → Json → Json
  pub at : String → Json → Option String
  pub at_null : (key : String) → at key null ≡ none
  pub at-put :
      (key other text : String) (j : Json)
      → at other (put key text j) ≡ (if eqb_str key other then some text else at other j)
