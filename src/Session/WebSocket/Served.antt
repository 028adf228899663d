-- ===== src/Session/WebSocket/Served.antt =====
-- Who serves what waits in the queue of a session that reads and writes.
use cryptobot_algo.Base.{
  ℕ, ◌+◌, ◌<◌, ◌≡◌, refl, sym, ◌∙◌, ap, Bool, true, false, some, List, [], ◌∷◌, ◌++◌, not, ◌&&◌,
  arith, Bool-cases, Option-cases, inl, inr, length, length-append,
}
use cryptobot_algo.Base.Arrays.{get_elem?, set, sum_by-snoc, sum_by-ge, get_elem?-set_self}
use cryptobot_algo.Session.WebSocket.{
  Class, session_rw, session_w, Connection, Outcome, done, failed, received, attempted, Task,
  running, read_spawned, reading, ended, write_spawned, delayed, writing, Frame, Session, Event,
  start_async, stop_async, async_write, resume, is_up, write_loop, dequeue, deliver, finish_run,
  resume_task, resume_frame, step, run,
}
use cryptobot_algo.Session.WebSocket.Frames.{tally}
use cryptobot_algo.Session.WebSocket.Keeps.{
  live_of, halted, halts, Keeps, put-Keeps, Keeps_trans, emit-Keeps, end_read-Keeps, slotted,
  deliver-Keeps, deliver-frames,
}

module _ {M : Type 0} where
  -- A message waits only as long as a coroutine will take it, or a write failed, or the signal came.
  abbrev pub IsServed : Session M → Type 0
  IsServed s =
      s.session_ready ≡ true
      → 0 < length s.message_queue
      → 0 < tally live_of s + length s.lost + halts s

  Keeps-IsServed : (s t : Session M) → Keeps s t → IsServed s → IsServed t
  Keeps-IsServed s t k served r n =
      let x = served (sym k.ready ∙ r) (rw k.queue at n) in
      omega (arith, k.live, k.halts_le, ap length k.lost, x)

  dequeue-IsServed :
      (v : Class) (i : ℕ) (queue : List M) (f : Frame M) (s : Session M)
      → get_elem? s.frames i ≡ some f
      → s.message_queue ≡ queue
      → IsServed (dequeue v i false queue s)
  unfolding dequeue
  dequeue-IsServed session_rw i [] f s e q = λ r n. absurd (omega (arith, ap length q))
  dequeue-IsServed session_w i [] f s e q = λ r n. absurd (omega (arith, ap length q))
  dequeue-IsServed v i (m ∷ queue) f s e q = λ r n.
      let g : Frame M = record { task = delayed m; cancelled = false } in
      omega (
        arith,
        sum_by-ge (λ (f : Frame M). live_of f.task) (set s.frames i g) i g
            (get_elem?-set_self s.frames i f g e),
      )

  -- A loop that stands at its head leaves a writer or an empty queue, or was cancelled.
  write_loop-IsServed :
      (v : Class) (i : ℕ) (c : Bool) (f : Frame M) (s : Session M)
      → get_elem? s.frames i ≡ some f
      → IsServed (write_loop v i c s)
  unfolding write_loop
  write_loop-IsServed v i true f s e = λ r n.
      let g : Frame M = record { task = ended; cancelled = true } in
      omega (
        arith,
        sum_by-ge (λ (f : Frame M). halted f.task f.cancelled) (set s.frames i g) i g
            (get_elem?-set_self s.frames i f g e),
      )
  write_loop-IsServed v i false f s e = dequeue-IsServed v i s.message_queue f s e refl

  finish_run-IsServed :
      (i : ℕ) (c : Bool) (a : Connection) (s : Session M)
      → get_elem? s.frames i ≡ some (record { task = running; cancelled = c })
      → IsServed s
      → IsServed (finish_run session_rw i a s)
  unfolding finish_run
  finish_run-IsServed i c a s e h =
      let f : Frame M = record { task = ended; cancelled = false } in
      let g : Frame M = record { task = write_spawned false; cancelled = false } in
      let r : Frame M = record { task = read_spawned; cancelled = false } in
      let w : Frame M → ℕ = λ f. live_of f.task in
      elim (Bool-cases (is_up a)) [
        | inl up ↦ rw up (λ q n. omega (
          arith,
          sum_by-snoc w (set s.frames i f) g,
          sum_by-snoc w (set s.frames i f ++ g ∷ []) r,
        ))
        | inr down ↦ rw down (
            Keeps-IsServed s _
              (put-Keeps i (record { task = running; cancelled = c }) f s e refl (omega arith)) h)
      ]

  resume_task-IsServed :
      (i : ℕ) (t : Task M) (c : Bool) (o : Outcome) (s : Session M)
      → get_elem? s.frames i ≡ some (record { task = t; cancelled = c })
      → IsServed s
      → IsServed (resume_task session_rw i t c o s)
  unfolding resume_task
  resume_task-IsServed i running c (attempted a) s e h = finish_run-IsServed i c a s e h
  resume_task-IsServed i (write_spawned b) c done s e h =
      elim (Bool-cases (b && not s.session_ready)) [
        | inl early ↦ rw early (λ r n. absurd (ground (arith, r, early)))
        | inr ready ↦ rw ready (
            write_loop-IsServed session_rw i false
              (record { task = write_spawned b; cancelled = c }) (record s { slot = some i }) e)
      ]
  resume_task-IsServed i (delayed m) c done s e h =
      Keeps-IsServed s _
        (put-Keeps i (record { task = delayed m; cancelled = c })
          (record { task = writing m; cancelled = c }) s e refl (omega arith))
        h
  resume_task-IsServed i (writing m) c done s e h =
      write_loop-IsServed session_rw i c (record { task = writing m; cancelled = c })
        (record s { sent = s.sent ++ m ∷ [] }) e
  resume_task-IsServed i (writing m) c failed s e h =
      λ r n. omega (arith, length-append s.lost (m ∷ []))
  resume_task-IsServed i read_spawned c done s e h =
      Keeps-IsServed s _
        (slotted i s _ (
          put-Keeps i (record { task = read_spawned; cancelled = c })
            (record { task = reading; cancelled = false }) s e refl (omega arith)))
        h
  resume_task-IsServed i reading true (received bytes) s e h =
      let s' = deliver session_rw bytes s in
      Keeps-IsServed s _
        (Keeps_trans s s' _ (deliver-Keeps bytes s)
          (end_read-Keeps i true s' (rw (deliver-frames bytes s) e)))
        h
  resume_task-IsServed i reading false (received bytes) s e h =
      Keeps-IsServed s _ (deliver-Keeps bytes s) h
  resume_task-IsServed i reading c failed s e h = Keeps-IsServed s _ (end_read-Keeps i c s e) h
  resume_task-IsServed i _ c _ s e h = h

  step-IsServed : (e : Event M) (s : Session M) → IsServed s → IsServed (step session_rw e s)
  unfolding step resume_frame
  step-IsServed start_async s h =
      let f : Frame M = record { task = running; cancelled = false } in
      λ r n. omega (
        arith,
        h r n,
        sum_by-snoc (λ (f : Frame M). live_of f.task) s.frames f,
        sum_by-snoc (λ (f : Frame M). halted f.task f.cancelled) s.frames f,
      )
  step-IsServed stop_async s h = Keeps-IsServed s _ (emit-Keeps s) h
  step-IsServed (async_write m) s h =
      let f : Frame M = record { task = write_spawned true; cancelled = false } in
      λ r n. omega (arith, sum_by-snoc (λ (f : Frame M). live_of f.task) s.frames f)
  step-IsServed (resume i o) s h = elim (Option-cases (get_elem? s.frames i)) [
    | inl e ↦ rw (e, resume_frame) h
    | inr (f, e) ↦ rw (e, resume_frame) (resume_task-IsServed i f.task f.cancelled o s e h)
  ]

  pub run-IsServed :
      (es : List (Event M)) (s : Session M) → IsServed s → IsServed (run session_rw es s)
  unfolding run
  run-IsServed [] s h = h
  run-IsServed (e ∷ es) s h = run-IsServed es (step session_rw e s) (step-IsServed e s h)
