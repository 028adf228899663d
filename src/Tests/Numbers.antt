-- ===== src/Tests/Numbers.antt =====
-- Two ids are issued, the first is returned and issued again.
use cryptobot_algo.Base.{ℕ, ◌+◌, ◌≡◌, ◌≤◌, ltb, if◌then◌else◌, List, [], ◌∷◌, arith}
use cryptobot_algo.Ids.{UidManager, new_uid_manager, issue, get_unique_id, return_id_to_pool}
use cryptobot_algo.Ids.Distinct.{times, take_out, Uses, none_yet, get, give_back, Uses-times}

abbrev manager : UidManager
manager =
    (get_unique_id (return_id_to_pool 0 (get_unique_id (get_unique_id new_uid_manager).1).1)).1

abbrev in_use : List ℕ
in_use = 0 ∷ 1 ∷ []

manager-Uses : Uses 3 in_use manager
unfolding get_unique_id issue return_id_to_pool take_out times
manager-Uses = get (give_back (get (get none_yet)) 0 (omega arith))

Uses-times_example :
    ((x : ℕ) → times x in_use ≤ 1)
    × ((x : ℕ)
        → times x in_use + times x manager.pool ≡ (if ltb x manager.current_id then 1 else 0))
    × (manager.current_id ≤ 3)
Uses-times_example = Uses-times manager-Uses (omega arith)
