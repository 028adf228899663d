-- ===== src/Session/WebSocket.antt =====
-- aoe/session/web_socket/web_socket.h: WebSocketSessionRW and WebSocketSessionW. The coroutines of a
-- session are frames, numbered as they are spawned. An event is a call of the session, or a frame that
-- is resumed with the outcome of what it awaited; between two suspensions a coroutine is not
-- interrupted. A message is a value of `M`; what is read is a list of bytes.
pub mod Frames
pub mod Held
pub mod Conserved
pub mod Keeps
pub mod Served
pub mod Drained
pub mod Silent
pub mod Unconnected
pub mod Overlap
use cryptobot_algo.Base.{
  ℕ, ◌+◌, Bool, true, false, Option, none, some, List, [], ◌∷◌, ◌++◌, ◌&&◌, not, if◌then◌else◌,
}
use cryptobot_algo.Base.Arrays.{get_elem?, set}

-- The two classes.
pub data Class : Type 0 where
  session_rw session_w : Class

-- What the awaits of `Run` answered: true where no error came.
pub record Connection : Type 0 where
  pub resolved : Bool
  pub host_name_set : Bool
  pub connected : Bool
  pub ssl_handshake : Bool
  pub handshake : Bool

-- What a frame is resumed with.
pub data Outcome : Type 0 where
  done failed : Outcome
  received : List ℕ → Outcome
  attempted : Connection → Outcome

-- Where a coroutine stands: `running`, in the awaits of Run; `write_spawned`, before its first step,
-- through StartWrite or from Run; in WriteLoop, `delayed` by the timer or `writing`; ReadLoop before
-- its first step and in `async_read`; and `ended`, when its frame is destroyed.
pub data Task (M : Type 0) : Type 0 where
  running read_spawned reading ended : Task M
  write_spawned : (by_start_write : Bool) → Task M
  delayed writing : M → Task M

pub record Frame (M : Type 0) : Type 0 where
  pub task : Task M
  pub cancelled : Bool

-- `slot` is the frame whose `cancelled` the handler of the cancellation slot writes; `dangling` tells
-- that the handler has written to a frame that was destroyed, which is undefined behaviour. `sent` are
-- the messages whose write completed, `lost` those whose write failed.
pub record Session (M : Type 0) : Type 0 where
  pub session_ready : Bool
  pub message_queue : List M
  pub frames : List (Frame M)
  pub slot : Option ℕ
  pub response_queue : List (List ℕ)
  pub notified : ℕ
  pub sent : List M
  pub lost : List M
  pub closed : Bool
  pub read_done : Bool
  pub write_done : Bool
  pub dangling : Bool

abbrev pub new_session : {M : Type 0} → Session M
new_session = record {
  session_ready = false;
  message_queue = [];
  frames = [];
  slot = none;
  response_queue = [];
  notified = 0;
  sent = [];
  lost = [];
  closed = false;
  read_done = false;
  write_done = false;
  dangling = false;
}

pub data Event (M : Type 0) : Type 0 where
  start_async stop_async : Event M
  async_write : M → Event M
  resume : ℕ → Outcome → Event M

abbrev pub is_rw : Class → Bool
is_rw session_rw = true
is_rw session_w = false

-- Every step of Run goes well.
abbrev pub is_up : Connection → Bool
is_up c = c.resolved && c.host_name_set && c.connected && c.ssl_handshake && c.handshake

module _ {M : Type 0} where
  abbrev pub spawn : Task M → Session M → Session M
  spawn t s = record s { frames = s.frames ++ record { task = t; cancelled = false } ∷ [] }

  abbrev pub put_frame : ℕ → Frame M → Session M → Session M
  put_frame i f s = record s { frames = set s.frames i f }

  abbrev pub is_ended : Task M → Bool
  is_ended ended = true
  is_ended _ = false

  -- `cancel_signal_.emit`: the handler writes to the frame that it captured.
  unfoldable pub emit : Session M → Session M
  emit s = elim s.slot [
    | none ↦ s
    | some i ↦ elim (get_elem? s.frames i) [
      | none ↦ s
      | some f ↦
          if is_ended f.task
          then record s { dangling = true }
          else put_frame i (record f { cancelled = true }) s
    ]
  ]

  -- The end of WriteLoop. A second `set_value` throws into the detached coroutine, which ends so too.
  abbrev pub end_write : ℕ → Bool → Session M → Session M
  end_write i cancelled s =
      put_frame i (record { task = ended; cancelled = cancelled }) (record s { write_done = true })

  -- An empty queue ends the loop; the class that only writes leaves the promise as it is.
  abbrev pub end_empty : Class → ℕ → Bool → Session M → Session M
  end_empty session_rw i cancelled s = end_write i cancelled s
  end_empty session_w i cancelled s = put_frame i (record { task = ended; cancelled = cancelled }) s

  unfoldable pub dequeue : Class → ℕ → Bool → List M → Session M → Session M
  dequeue v i cancelled [] s = end_empty v i cancelled s
  dequeue v i cancelled (m ∷ queue) s =
      put_frame i (record { task = delayed m; cancelled = cancelled })
        (record s { message_queue = queue })

  -- WriteLoop from the head of its loop to the timer.
  unfoldable pub write_loop : Class → ℕ → Bool → Session M → Session M
  unfolding dequeue
  write_loop v i cancelled s =
      if cancelled then end_write i cancelled s else dequeue v i cancelled s.message_queue s

  abbrev pub start_write_loop : Class → ℕ → Session M → Session M
  start_write_loop v i s = write_loop v i false (record s { slot = some i })

  -- The end of ReadLoop, with CloseSessionFast.
  unfoldable pub end_read : ℕ → Session M → Session M
  unfolding emit
  end_read i s =
      let s' = emit s in
      elim (get_elem? s'.frames i) [
        | none ↦ s'
        | some f ↦
            put_frame i (record f { task = ended }) (record s' { closed = true; read_done = true })
      ]

  -- What was read, where it is not empty.
  abbrev pub deliver : Class → List ℕ → Session M → Session M
  deliver session_rw (b ∷ bytes) s = record s {
    response_queue = s.response_queue ++ (b ∷ bytes) ∷ [];
    notified = s.notified + 1;
  }
  deliver _ _ s = s

  unfoldable pub finish_run : Class → ℕ → Connection → Session M → Session M
  finish_run v i c s =
      let s' = put_frame i (record { task = ended; cancelled = false }) s in
      if is_up c
      then spawn read_spawned (spawn (write_spawned false) (record s' { session_ready = is_rw v }))
      else s'

  -- One step of a frame. An outcome that its await cannot have changes nothing.
  unfoldable pub resume_task : Class → ℕ → Task M → Bool → Outcome → Session M → Session M
  unfolding write_loop finish_run end_read
  resume_task v i running cancelled (attempted c) s = finish_run v i c s
  resume_task v i (write_spawned by_start_write) cancelled done s =
      if by_start_write && not s.session_ready
      then put_frame i (record { task = ended; cancelled = cancelled }) s
      else start_write_loop v i s
  resume_task v i (delayed m) cancelled done s =
      put_frame i (record { task = writing m; cancelled = cancelled }) s
  resume_task v i (writing m) cancelled done s =
      write_loop v i cancelled (record s { sent = s.sent ++ m ∷ [] })
  resume_task v i (writing m) cancelled failed s =
      end_write i cancelled (record s { lost = s.lost ++ m ∷ [] })
  resume_task v i read_spawned cancelled done s =
      put_frame i (record { task = reading; cancelled = false }) (record s { slot = some i })
  resume_task v i reading cancelled (received bytes) s =
      let s' = deliver v bytes s in if cancelled then end_read i s' else s'
  resume_task v i reading cancelled failed s = end_read i s
  resume_task v i _ cancelled _ s = s

  unfoldable pub resume_frame : Class → ℕ → Outcome → Session M → Session M
  unfolding resume_task
  resume_frame v i o s = elim (get_elem? s.frames i) [
    | none ↦ s
    | some f ↦ resume_task v i f.task f.cancelled o s
  ]

  -- StopAsync of the class that only writes does nothing.
  abbrev pub stop : Class → Session M → Session M
  stop session_rw s = emit s
  stop session_w s = s

  unfoldable pub step : Class → Event M → Session M → Session M
  unfolding resume_frame emit
  step v start_async s = spawn running s
  step v stop_async s = stop v s
  step v (async_write m) s =
      spawn (write_spawned true) (record s { message_queue = s.message_queue ++ m ∷ [] })
  step v (resume i o) s = resume_frame v i o s

  unfoldable pub run : Class → List (Event M) → Session M → Session M
  unfolding step
  run v [] s = s
  run v (e ∷ es) s = run v es (step v e s)

  -- The destructor waits for both promises.
  abbrev pub can_destroy : Session M → Bool
  can_destroy s = s.read_done && s.write_done
