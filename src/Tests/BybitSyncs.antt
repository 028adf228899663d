-- ===== src/Tests/BybitSyncs.antt =====
-- Histories of the Bybit synchroniser.
use cryptobot_algo.Base.{ℕ, List, [], ◌∷◌, arith}
use cryptobot_algo.Bybit.Sync.{Event, initial, Input, got_snapshot, got_diff, run}
use cryptobot_algo.Bybit.Sync.Order.{InOrder, run-InOrder}

abbrev event : ℕ → Event
event n = record { update_id = n; bids = []; asks = [] }

abbrev inputs : List Input
inputs = got_diff (event 4) ∷ got_snapshot (event 7) ∷ got_diff (event 8) ∷ got_diff (event 10) ∷ []

run-InOrder_example : InOrder (run (initial 0 0) inputs).calls
run-InOrder_example = run-InOrder 0 inputs (tt, ((λ h. omega (arith, h)), (tt, (tt, tt))))
