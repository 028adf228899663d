-- ===== src/Tests/Executions.antt =====
-- Executions on a storage with one position.
use cryptobot_algo.Base.{◌≡◌, refl}
use cryptobot_algo.Base.Int.{pos, negsuc, ◌+ℤ◌, ◌-ℤ◌}
use cryptobot_algo.Positions.Storage.{
  PositionStorage, new_position_storage, get_position, add_position, remove_position,
}
use cryptobot_algo.Positions.Net.{add, remove}
use cryptobot_algo.Positions.Executions.{spot_sell, ExecutionEvent, accept_execution}
use cryptobot_algo.Positions.Executions.Quantities.{held, accept_execution-held}
use cryptobot_algo.Tests.Storages.{divide}

abbrev long : PositionStorage
long = add_position divide 4 (pos 100) (pos 3) new_position_storage

abbrev sale : ExecutionEvent
sale = record { kind = spot_sell; key = 4; exec_price = pos 110; exec_qty = pos 2 }

accept_execution-held_example :
    held (get_position 4 (accept_execution divide sale long))
    ≡ held (get_position 4 long) +ℤ negsuc 1
unfolding get_position add_position ◌-ℤ◌
accept_execution-held_example = accept_execution-held divide sale 4 long

-- What it leaves.
left : held (get_position 4 (accept_execution divide sale long)) ≡ pos 1
unfolding get_position accept_execution remove_position add_position remove ◌-ℤ◌ add ◌+ℤ◌
left = refl
