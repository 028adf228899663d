-- ===== src/Ids.antt =====
-- aos/uid: the manager of unique ids. `number_pool.h` is a queue of the ids that were returned,
-- `unique_id_generator.h` counts up, and `uid_manager.h` asks the queue first.
pub mod Distinct
use cryptobot_algo.Base.{
  ℕ, ◌+◌, ◌%◌, ◌^◌, ◌==◌, Bool, true, false, Option, none, some, List, [], ◌∷◌, ◌++◌,
}

-- `std::queue<size_t>`, the front first.
abbrev pub NumberPool : Type 0
NumberPool = List ℕ

abbrev pub return_to_pool : ℕ → NumberPool → NumberPool
return_to_pool id pool = pool ++ id ∷ []

abbrev pub get_from_pool : NumberPool → Option ℕ × NumberPool
get_from_pool [] = (none, [])
get_from_pool (id ∷ pool) = (some id, pool)

-- `current_id_++` on `size_t`: the id, and the next one.
abbrev pub generate_unique_id : ℕ → ℕ × ℕ
generate_unique_id current = (current, (current + 1) % 2 ^ 64)

pub record UidManager : Type 0 where
  pub current_id : ℕ
  pub pool : NumberPool

abbrev pub new_uid_manager : UidManager
new_uid_manager = record { current_id = 0; pool = [] }

unfoldable pub issue : Option ℕ × NumberPool → UidManager → ℕ × UidManager
issue (none, pool) m =
    let (id, next) = generate_unique_id m.current_id in
    (id, record { current_id = next; pool = pool })
issue (some id, pool) m = (id, record m { pool = pool })

unfoldable pub get_unique_id : UidManager → ℕ × UidManager
unfolding issue
get_unique_id m = issue (get_from_pool m.pool) m

unfoldable pub return_id_to_pool : ℕ → UidManager → UidManager
return_id_to_pool id m = record m { pool = return_to_pool id m.pool }

-- The pooled classes have the same text.
abbrev pub pooled_get_from_pool : NumberPool → Option ℕ × NumberPool
pooled_get_from_pool = get_from_pool

abbrev pub pooled_get_unique_id : UidManager → ℕ × UidManager
pooled_get_unique_id = get_unique_id
