-- ===== src/Listener.antt =====
-- aoe/binance/response_queue_listener and aoe/bybit/response_queue_listener: the listeners of the queue
-- that a session fills. The classes have one text, over a parser and the object that is told; these are
-- the parameters `parse`, which answers none where the JSON or the event is not as expected, and
-- `accept`. `ProcessQueue` is a coroutine on a strand, so one runs at a time, but the queue may be
-- filled while it runs.
pub mod InOrder
pub mod Strand
pub mod Sound
use cryptobot_algo.Base.{
  ℕ, ◌+◌, zero, suc, Bool, true, false, Option, none, some, List, [], ◌∷◌, ◌++◌,
}

-- `spawned` are the coroutines that wait for the strand; `running` tells that one has it. `notices` are
-- the calls of OnDataEnqueued that are due for what was enqueued.
pub record Listener (Msg Target : Type 0) : Type 0 where
  pub queue : List Msg
  pub notices : ℕ
  pub spawned : ℕ
  pub running : Bool
  pub target : Target

abbrev pub new_listener : {Msg Target : Type 0} → Target → Listener Msg Target
new_listener target = record {
  queue = [];
  notices = 0;
  spawned = 0;
  running = false;
  target = target;
}

-- The session enqueues, and then calls OnDataEnqueued; the strand starts a coroutine when it is free;
-- a turn is one round of its loop.
pub data Event (Msg : Type 0) : Type 0 where
  enqueue : Msg → Event Msg
  on_data_enqueued begin turn : Event Msg

module _ {Msg Parsed Target : Type 0} (parse : Msg → Option Parsed)
    (accept : Parsed → Target → Target) where
  -- What is done with a message that was taken from the queue: one that is not parsed ends the loop.
  unfoldable pub process : Option Parsed → Listener Msg Target → Listener Msg Target
  process none l = record l { running = false }
  process (some p) l = record l { target = accept p l.target }

  unfoldable pub process_queue : List Msg → Listener Msg Target → Listener Msg Target
  unfolding process
  process_queue [] l = record l { running = false }
  process_queue (m ∷ queue) l = process (parse m) (record l { queue = queue })

  -- An event that cannot happen changes nothing.
  unfoldable pub handle_notice : ℕ → Listener Msg Target → Listener Msg Target
  handle_notice zero l = l
  handle_notice (suc n) l = record l { notices = n; spawned = l.spawned + 1 }

  unfoldable pub begin_process : Bool → ℕ → Listener Msg Target → Listener Msg Target
  begin_process false (suc n) l = record l { spawned = n; running = true }
  begin_process _ _ l = l

  unfoldable pub take_turn : Bool → Listener Msg Target → Listener Msg Target
  unfolding process_queue
  take_turn true l = process_queue l.queue l
  take_turn false l = l

  unfoldable pub step : Event Msg → Listener Msg Target → Listener Msg Target
  unfolding handle_notice begin_process take_turn
  step (enqueue m) l = record l { queue = l.queue ++ m ∷ []; notices = l.notices + 1 }
  step on_data_enqueued l = handle_notice l.notices l
  step begin l = begin_process l.running l.spawned l
  step turn l = take_turn l.running l

  unfoldable pub run : List (Event Msg) → Listener Msg Target → Listener Msg Target
  unfolding step
  run [] l = l
  run (e ∷ es) l = run es (step e l)

  -- The specification: every message that can be parsed is handed over, one after another.
  abbrev pub hand : Option Parsed → Target → Target
  hand none t = t
  hand (some p) t = accept p t

  unfoldable pub hand_over : List Msg → Target → Target
  hand_over [] t = t
  hand_over (m ∷ ms) t = hand_over ms (hand (parse m) t)
