-- ===== src/Session/WebSocket/Overlap.antt =====
-- What a message that is given to a connected session leads to while another is written, and after.
use cryptobot_algo.Base.{ℕ, ◌≡◌, refl, Bool, true, false, some, List, [], ◌∷◌, ◌++◌, length}
use cryptobot_algo.Base.Arrays.{get_elem?, get_elem?-snoc, get_elem?-append, set-snoc}
use cryptobot_algo.Session.WebSocket.{
  session_rw, done, Task, writing, ended, Frame, Session, Event, stop_async, async_write, resume,
  emit, resume_task, resume_frame, write_loop, dequeue, step, run,
}

module _ {M : Type 0} where
  -- The session when its last frame stands at a task.
  abbrev at_last : Task M → List M → Session M → Session M
  at_last t queue s = record s {
    frames = s.frames ++ record { task = t; cancelled = false } ∷ [];
    message_queue = queue;
    slot = some (length s.frames);
  }

  -- The events from AsyncWrite to the write.
  abbrev pub begin_write : M → Session M → List (Event M)
  begin_write m s = let n = length s.frames in async_write m ∷ resume n done ∷ resume n done ∷ []

  begin-write :
      (m : M) (s : Session M)
      → s.session_ready ≡ true
      → s.message_queue ≡ []
      → run session_rw (begin_write m s) s ≡ at_last (writing m) [] s
  unfolding run step resume_frame resume_task write_loop dequeue
  begin-write m s ready empty = simp (empty, resume_frame, get_elem?-snoc, set-snoc, ready)

  abbrev written_last : M → Session M → Session M
  written_last m s = record (at_last ended [] s) { sent = s.sent ++ m ∷ []; write_done = true }

  complete-write :
      (m : M) (s : Session M)
      → resume_frame session_rw (length s.frames) done (at_last (writing m) [] s) ≡ written_last m s
  unfolding resume_frame resume_task write_loop dequeue
  complete-write m s = simp (resume_frame, get_elem?-snoc, set-snoc)

  emit-last :
      (m : M) (s : Session M)
      → emit (written_last m s) ≡ record (written_last m s) { dangling = true }
  unfolding emit
  emit-last m s =
      let f : Frame M = record { task = ended; cancelled = false } in
      rw (get_elem?-snoc s.frames f, emit) refl

  -- While one message is being written over a ready session whose queue is empty, another that is given
  -- to AsyncWrite gets a coroutine of its own, which starts a second write before the first is done.
  pub run-overlaps :
      (m m' : M) (i : ℕ) (c : Bool) (s : Session M)
      → s.session_ready ≡ true
      → s.message_queue ≡ []
      → get_elem? s.frames i ≡ some (record { task = writing m; cancelled = c })
      → let t = run session_rw (begin_write m' s) s in
        (get_elem? t.frames i ≡ some (record { task = writing m; cancelled = c }))
        × (get_elem? t.frames (length s.frames)
            ≡ some (record { task = writing m'; cancelled = false }))
  run-overlaps m m' i c s ready empty e =
      rw (begin-write m' s ready empty)
        (get_elem?-append s.frames _ i _ e, get_elem?-snoc s.frames _)

  -- StopAsync right after a ready session with an empty queue has written a message cancels no
  -- coroutine of before, no reader either: the handler that it calls belongs to the frame of the writer, which is destroyed, and
  -- every frame of before is unchanged.
  pub stop_after_write :
      (m : M) (s : Session M)
      → s.session_ready ≡ true
      → s.message_queue ≡ []
      → let t =
          run session_rw
            (resume (length s.frames) done ∷ stop_async ∷ [])
            (run session_rw (begin_write m s) s) in
        (t.dangling ≡ true)
        × (t.sent ≡ s.sent ++ m ∷ [])
        × ((i : ℕ) (f : Frame M) → get_elem? s.frames i ≡ some f → get_elem? t.frames i ≡ some f)
  unfolding run step
  stop_after_write m s ready empty =
      rw (begin-write m s ready empty, complete-write m s, emit-last m s)
        (refl, refl, λ i f e. get_elem?-append s.frames _ i f e)
