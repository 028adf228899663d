-- ===== src/Session/WebSocket/Unconnected.antt =====
-- A session that is never connected.
use cryptobot_algo.Base.{
  ℕ, ◌≡◌, refl, ap, Bool, true, false, none, some, List, [], ◌∷◌, ◌++◌, not, if◌then◌else◌, arith,
  Option-cases, inl, inr, All,
}
use cryptobot_algo.Base.Arrays.{get_elem?, sum_by-nil, sum_by-snoc, sum_by-ge}
use cryptobot_algo.Session.WebSocket.{
  Class, session_rw, session_w, Outcome, done, attempted, Task, running, read_spawned, reading,
  ended, write_spawned, delayed, writing, Frame, Session, new_session, Event, start_async,
  stop_async, async_write, resume, is_up, emit, finish_run, resume_task, resume_frame, step, run,
  put_frame, spawn,
}
use cryptobot_algo.Session.WebSocket.Frames.{tally, tally-put}

-- No attempt to connect goes well.
abbrev pub stays_down : {M : Type 0} → Event M → Bool
stays_down (resume i (attempted c)) = not (is_up c)
stays_down _ = true

module _ {M : Type 0} where
  -- A coroutine that a session spawns only once it is connected.
  abbrev awake_of : Task M → ℕ
  awake_of running = 0
  awake_of (write_spawned b) = if b then 0 else 1
  awake_of ended = 0
  awake_of _ = 1

  record IsDown (s : Session M) : Type 0 where
    down : s.session_ready ≡ false
    unslotted : s.slot ≡ none
    none_awake : tally awake_of s ≡ 0
    unsent : s.sent ≡ []
    unread : s.read_done ≡ false
    unwritten : s.write_done ≡ false

  put-IsDown :
      (i : ℕ) (f g : Frame M) (s : Session M)
      → get_elem? s.frames i ≡ some f
      → awake_of g.task ≡ 0
      → IsDown s
      → IsDown (put_frame i g s)
  put-IsDown i f g s e z h = record {
    down = h.down;
    unslotted = h.unslotted;
    none_awake = omega (arith, tally-put awake_of i f g s e, h.none_awake, z);
    unsent = h.unsent;
    unread = h.unread;
    unwritten = h.unwritten;
  }

  spawn-IsDown : (t : Task M) (s : Session M) → awake_of t ≡ 0 → IsDown s → IsDown (spawn t s)
  spawn-IsDown t s z h = record {
    down = h.down;
    unslotted = h.unslotted;
    none_awake = omega (
      arith,
      h.none_awake,
      z,
      sum_by-snoc (λ (f : Frame M). awake_of f.task) s.frames
          (record { task = t; cancelled = false }),
    );
    unsent = h.unsent;
    unread = h.unread;
    unwritten = h.unwritten;
  }

  emit-IsDown : (s : Session M) → IsDown s → emit s ≡ s
  unfolding emit
  emit-IsDown s h = simp (h.unslotted, emit)

  resume_task-IsDown :
      (v : Class) (i : ℕ) (t : Task M) (c : Bool) (o : Outcome) (s : Session M)
      → get_elem? s.frames i ≡ some (record { task = t; cancelled = c })
      → awake_of t ≡ 0
      → stays_down {M = M} (resume i o) ≡ true
      → IsDown s
      → IsDown (resume_task v i t c o s)
  unfolding resume_task finish_run
  resume_task-IsDown v i running c (attempted a) s e z d h =
      let down : is_up a ≡ false = ground (arith, d) in
      rw down (
        put-IsDown i (record { task = running; cancelled = c })
          (record { task = ended; cancelled = false }) s e refl h)
  resume_task-IsDown v i (write_spawned true) c done s e z d h =
      let early : not s.session_ready ≡ true = ap not h.down in
      rw early (
        put-IsDown i (record { task = write_spawned true; cancelled = c })
          (record { task = ended; cancelled = c }) s e refl h)
  resume_task-IsDown v i (write_spawned false) c o s e z d h = absurd (omega (arith, z))
  resume_task-IsDown v i (delayed m) c o s e z d h = absurd (omega (arith, z))
  resume_task-IsDown v i (writing m) c o s e z d h = absurd (omega (arith, z))
  resume_task-IsDown v i reading c o s e z d h = absurd (omega (arith, z))
  resume_task-IsDown v i read_spawned c o s e z d h = absurd (omega (arith, z))
  resume_task-IsDown v i _ c _ s e z d h = h

  step-IsDown :
      (v : Class) (e : Event M) (s : Session M)
      → stays_down e ≡ true
      → IsDown s
      → IsDown (step v e s)
  unfolding step resume_frame
  step-IsDown v start_async s d h = spawn-IsDown running s refl h
  step-IsDown session_rw stop_async s d h = rw (emit-IsDown s h) h
  step-IsDown session_w stop_async s d h = h
  step-IsDown v (async_write m) s d h =
      spawn-IsDown (write_spawned true) (record s { message_queue = s.message_queue ++ m ∷ [] })
        refl
        (record {
          down = h.down;
          unslotted = h.unslotted;
          none_awake = h.none_awake;
          unsent = h.unsent;
          unread = h.unread;
          unwritten = h.unwritten;
        })
  step-IsDown v (resume i o) s d h = elim (Option-cases (get_elem? s.frames i)) [
    | inl e ↦ rw (e, resume_frame) h
    | inr (f, e) ↦
        rw (e, resume_frame)
          (resume_task-IsDown v i f.task f.cancelled o s e
            (omega
              (arith, h.none_awake, sum_by-ge (λ (f : Frame M). awake_of f.task) s.frames i f e))
            d h)
  ]

  run-IsDown :
      (v : Class) (es : List (Event M)) (s : Session M)
      → All (λ e. stays_down e ≡ true) es
      → IsDown s
      → IsDown (run v es s)
  unfolding run
  run-IsDown v [] s d h = h
  run-IsDown v (e ∷ es) s (d, ds) h = run-IsDown v es (step v e s) ds (step-IsDown v e s d h)

  -- A session of either class that no attempt connects writes nothing and sets neither promise, so its
  -- destructor waits forever, also after StopAsync.
  pub run-unconnected :
      (v : Class) (es : List (Event M))
      → All (λ e. stays_down e ≡ true) es
      → let s = run v es new_session in
        (s.sent ≡ []) × (s.read_done ≡ false) × (s.write_done ≡ false)
  run-unconnected v es d =
      let h = run-IsDown v es new_session d (record {
        down = refl;
        unslotted = refl;
        none_awake = sum_by-nil _;
        unsent = refl;
        unread = refl;
        unwritten = refl;
      }) in
      (h.unsent, h.unread, h.unwritten)
