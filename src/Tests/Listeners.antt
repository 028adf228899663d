-- ===== src/Tests/Listeners.antt =====
-- A listener that parses numbers below 10 and adds them to a list.
use cryptobot_algo.Base.{ℕ, ◌≡◌, refl, Option, none, some, List, [], ◌∷◌, ◌++◌, ltb, if◌then◌else◌}
use cryptobot_algo.Listener.{
  new_listener, Event, enqueue, on_data_enqueued, begin, turn, run, hand_over,
}
use cryptobot_algo.Listener.InOrder.{enqueued, run-in_order}

abbrev parse : ℕ → Option ℕ
parse n = if ltb n 10 then some n else none

abbrev collect : ℕ → List ℕ → List ℕ
collect n ns = ns ++ n ∷ []

abbrev history : List (Event ℕ)
history =
    enqueue 1
    ∷ on_data_enqueued
    ∷ begin
    ∷ enqueue 12
    ∷ turn
    ∷ turn
    ∷ enqueue 3
    ∷ on_data_enqueued
    ∷ on_data_enqueued
    ∷ begin
    ∷ turn
    ∷ turn
    ∷ begin
    ∷ turn
    ∷ []

run-in_order_example :
    let l = run parse collect history (new_listener []) in
    (l.queue ≡ []) × (l.target ≡ hand_over parse collect (enqueued history) [])
unfolding run
run-in_order_example = run-in_order parse collect history [] refl refl

handed : (run parse collect history (new_listener [])).target ≡ 1 ∷ 3 ∷ []
unfolding run
handed = refl
