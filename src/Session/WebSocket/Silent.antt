-- ===== src/Session/WebSocket/Silent.antt =====
-- A session that only writes, after its first loop.
use cryptobot_algo.Base.{
  ℕ, ◌≡◌, refl, ◌∙◌, ap, Bool, true, false, some, List, [], ◌∷◌, ◌++◌, not, ◌&&◌, if◌then◌else◌,
  arith, Bool-cases, Option-cases, inl, inr, All,
}
use cryptobot_algo.Base.Arrays.{get_elem?, sum_by-snoc, sum_by-ge}
use cryptobot_algo.Session.WebSocket.{
  session_w, Outcome, done, failed, received, attempted, Task, running, read_spawned, reading,
  ended, write_spawned, delayed, writing, Frame, Session, new_session, Event, start_async,
  stop_async, async_write, resume, is_up, emit, end_read, finish_run, resume_task, resume_frame,
  step, run, put_frame, write_loop, dequeue,
}
use cryptobot_algo.Session.WebSocket.Frames.{tally, emit-cases, tally-put}

module _ {M : Type 0} where
  -- A coroutine that may yet take a message in a session that is not ready.
  abbrev pub loops_of : Task M → ℕ
  loops_of running = 1
  loops_of (write_spawned b) = if b then 0 else 1
  loops_of (delayed m) = 1
  loops_of (writing m) = 1
  loops_of _ = 0

  -- What is written stays as it is, and nobody will write.
  record Silent (sent : List M) (s : Session M) : Type 0 where
    same : s.sent ≡ sent
    down : s.session_ready ≡ false
    none_left : tally loops_of s ≡ 0

  put-Silent :
      {sent : List M} (i : ℕ) (f g : Frame M) (s : Session M)
      → get_elem? s.frames i ≡ some f
      → loops_of g.task ≡ 0
      → Silent sent s
      → Silent sent (put_frame i g s)
  put-Silent i f g s e z h = record {
    same = h.same;
    down = h.down;
    none_left = omega (arith, tally-put loops_of i f g s e, h.none_left, z);
  }

  emit-Silent : {sent : List M} (s : Session M) → Silent sent s → Silent sent (emit s)
  emit-Silent s h = elim (emit-cases s) [
    | inl (inl e) ↦ rw e h
    | inl (inr e) ↦ rw e (record { same = h.same; down = h.down; none_left = h.none_left })
    | inr (i, f, g, live, e) ↦ rw e (
        put-Silent i f (record f { cancelled = true }) s g
          (omega (arith, h.none_left, sum_by-ge (λ (f : Frame M). loops_of f.task) s.frames i f g))
          h)
  ]

  end_read-Silent :
      {sent : List M} (i : ℕ) (s : Session M) → Silent sent s → Silent sent (end_read i s)
  unfolding end_read
  end_read-Silent i s h = elim (Option-cases (get_elem? (emit s).frames i)) [
    | inl e ↦ rw (end_read, e) (emit-Silent s h)
    | inr (f, e) ↦
        let k = put-Silent i f (record f { task = ended }) (emit s) e refl (emit-Silent s h) in
        rw (end_read, e) (record { same = k.same; down = k.down; none_left = k.none_left })
  ]

  resume_task-Silent :
      {sent : List M} (i : ℕ) (t : Task M) (c : Bool) (o : Outcome) (s : Session M)
      → get_elem? s.frames i ≡ some (record { task = t; cancelled = c })
      → loops_of t ≡ 0
      → Silent sent s
      → Silent sent (resume_task session_w i t c o s)
  unfolding resume_task
  resume_task-Silent i running c o s e z h = absurd (omega (arith, z))
  resume_task-Silent i (delayed m) c o s e z h = absurd (omega (arith, z))
  resume_task-Silent i (writing m) c o s e z h = absurd (omega (arith, z))
  resume_task-Silent i (write_spawned false) c o s e z h = absurd (omega (arith, z))
  resume_task-Silent i (write_spawned true) c done s e z h =
      let early : not s.session_ready ≡ true = ap not h.down in
      rw early (
        put-Silent i (record { task = write_spawned true; cancelled = c })
          (record { task = ended; cancelled = c }) s e refl h)
  resume_task-Silent i read_spawned c done s e z h =
      let k =
        put-Silent i (record { task = read_spawned; cancelled = c })
          (record { task = reading; cancelled = false }) s e refl h in
      record { same = k.same; down = k.down; none_left = k.none_left }
  resume_task-Silent i reading true (received bytes) s e z h = end_read-Silent i s h
  resume_task-Silent i reading false (received bytes) s e z h = h
  resume_task-Silent i reading c failed s e z h = end_read-Silent i s h
  resume_task-Silent i _ c _ s e z h = h

  -- A history in which the session is not started again.
  abbrev pub is_start : Event M → Bool
  is_start start_async = true
  is_start _ = false

  step-Silent :
      {sent : List M} (e : Event M) (s : Session M)
      → is_start e ≡ false
      → Silent sent s
      → Silent sent (step session_w e s)
  unfolding step resume_frame
  step-Silent start_async s n h = absurd (cc)
  step-Silent stop_async s n h = h
  step-Silent (async_write m) s n h = record {
    same = h.same;
    down = h.down;
    none_left = omega (
      arith,
      h.none_left,
      sum_by-snoc (λ (f : Frame M). loops_of f.task) s.frames
          (record { task = write_spawned true; cancelled = false }),
    );
  }
  step-Silent (resume i o) s n h = elim (Option-cases (get_elem? s.frames i)) [
    | inl e ↦ rw (e, resume_frame) h
    | inr (f, e) ↦
        rw (e, resume_frame)
          (resume_task-Silent i f.task f.cancelled o s e
            (omega
              (arith, h.none_left, sum_by-ge (λ (f : Frame M). loops_of f.task) s.frames i f e))
            h)
  ]

  run-Silent :
      {sent : List M} (es : List (Event M)) (s : Session M)
      → All (λ e. is_start e ≡ false) es
      → Silent sent s
      → Silent sent (run session_w es s)
  unfolding run
  run-Silent [] s n h = h
  run-Silent (e ∷ es) s (n, ns) h = run-Silent es (step session_w e s) ns (step-Silent e s n h)

  dequeue-down :
      (i : ℕ) (c : Bool) (queue : List M) (s : Session M)
      → (dequeue session_w i c queue s).session_ready ≡ s.session_ready
  unfolding dequeue
  dequeue-down i c [] s = refl
  dequeue-down i c (m ∷ queue) s = refl

  write_loop-down :
      (i : ℕ) (c : Bool) (s : Session M)
      → (write_loop session_w i c s).session_ready ≡ s.session_ready
  unfolding write_loop
  write_loop-down i true s = refl
  write_loop-down i false s = dequeue-down i false s.message_queue s

  emit-down : (s : Session M) → (emit s).session_ready ≡ s.session_ready
  emit-down s = elim (emit-cases s) [
    | inl (inl e) ↦ rw e refl
    | inl (inr e) ↦ rw e refl
    | inr (i, f, g, live, e) ↦ rw e refl
  ]

  end_read-down : (i : ℕ) (s : Session M) → (end_read i s).session_ready ≡ s.session_ready
  unfolding end_read
  end_read-down i s = elim (Option-cases (get_elem? (emit s).frames i)) [
    | inl e ↦ rw (end_read, e) (emit-down s)
    | inr (f, e) ↦ rw (end_read, e) (emit-down s)
  ]

  -- The session that only writes is never ready.
  resume_task-down :
      (i : ℕ) (t : Task M) (c : Bool) (o : Outcome) (s : Session M)
      → s.session_ready ≡ false
      → (resume_task session_w i t c o s).session_ready ≡ false
  unfolding resume_task finish_run
  resume_task-down i running c (attempted a) s h = elim (Bool-cases (is_up a)) [
    | inl up ↦ rw up refl
    | inr down ↦ rw down h
  ]
  resume_task-down i (write_spawned b) c done s h = elim (Bool-cases (b && not s.session_ready)) [
    | inl early ↦ rw early h
    | inr late ↦ rw late (write_loop-down i false (record s { slot = some i }) ∙ h)
  ]
  resume_task-down i (writing m) c done s h =
      write_loop-down i c (record s { sent = s.sent ++ m ∷ [] }) ∙ h
  resume_task-down i (delayed m) c done s h = h
  resume_task-down i read_spawned c done s h = h
  resume_task-down i reading true (received bytes) s h = end_read-down i s ∙ h
  resume_task-down i reading false (received bytes) s h = h
  resume_task-down i reading c failed s h = end_read-down i s ∙ h
  resume_task-down i _ c _ s h = h

  step-down :
      (e : Event M) (s : Session M)
      → s.session_ready ≡ false
      → (step session_w e s).session_ready ≡ false
  unfolding step resume_frame
  step-down (resume i o) s h = elim (Option-cases (get_elem? s.frames i)) [
    | inl e ↦ rw (e, resume_frame) h
    | inr (f, e) ↦ rw (e, resume_frame) (resume_task-down i f.task f.cancelled o s h)
  ]
  step-down _ s h = h

  run-down :
      (es : List (Event M)) (s : Session M)
      → s.session_ready ≡ false
      → (run session_w es s).session_ready ≡ false
  unfolding run
  run-down [] s h = h
  run-down (e ∷ es) s h = run-down es (step session_w e s) (step-down e s h)

  -- After any history of a session that only writes, as soon as no coroutine connects, is in its write
  -- loop or was spawned to enter it by Run, nothing more is written, whatever is given to AsyncWrite, until the session is started again.
  pub run-silent :
      (es later : List (Event M))
      → let s = run session_w es new_session in
        tally loops_of s ≡ 0
        → All (λ e. is_start e ≡ false) later
        → (run session_w later s).sent ≡ s.sent
  run-silent es later quiet no_start =
      let s = run session_w es new_session in
      (run-Silent later s no_start
        (record { same = refl; down = run-down es new_session refl; none_left = quiet })).same
