-- ===== src/Session/WebSocket/Conserved.antt =====
-- Where the messages are that were given to a session, over every history.
use cryptobot_algo.Base.{
  ℕ, ◌+◌, ◌≡◌, refl, ◌∙◌, Bool, true, false, some, List, [], ◌∷◌, ◌++◌, not, ◌&&◌, arith,
  Bool-cases, Option-cases, inl, inr,
}
use cryptobot_algo.Base.Arrays.{get_elem?, sum_by-cons, sum_by-nil, sum_by-snoc}
use cryptobot_algo.Session.WebSocket.{
  Class, session_rw, session_w, Outcome, done, failed, received, attempted, Task, running,
  read_spawned, reading, ended, write_spawned, delayed, writing, Frame, Session, new_session, Event,
  start_async, stop_async, async_write, resume, deliver, resume_task, resume_frame, step, run,
}
use cryptobot_algo.Session.WebSocket.Frames.{tally-put}
use cryptobot_algo.Session.WebSocket.Held.{
  bit, count, in_flight_of, in_flight, held, emit-held, write_loop-held, end_reading-held,
  deliver-held, finish_run-held,
}

-- The messages that a history gives to the session.
unfoldable pub written : {M : Type 0} → List (Event M) → List M
written [] = []
written (async_write m ∷ es) = m ∷ written es
written (_ ∷ es) = written es

module _ {M : Type 0} where
  resume_task-held :
      (p : M → Bool) (v : Class) (i : ℕ) (t : Task M) (c : Bool) (o : Outcome) (s : Session M)
      → get_elem? s.frames i ≡ some (record { task = t; cancelled = c })
      → held p (resume_task v i t c o s) ≡ held p s
  unfolding resume_task
  resume_task-held p v i running c (attempted a) s e = finish_run-held p v i c a s e
  resume_task-held p v i (write_spawned b) c done s e =
      elim (Bool-cases (b && not s.session_ready)) [
        | inl early ↦ rw early (
            omega (
              arith,
              tally-put (in_flight_of p) i (record { task = write_spawned b; cancelled = c })
                  (record { task = ended; cancelled = c }) s e,
            ))
        | inr ready ↦ rw ready (
            omega (
              arith,
              write_loop-held p v i false (record { task = write_spawned b; cancelled = c })
                  (record s { slot = some i }) e,
            ))
      ]
  resume_task-held p v i (delayed m) c done s e = omega (
    arith,
    tally-put (in_flight_of p) i (record { task = delayed m; cancelled = c })
        (record { task = writing m; cancelled = c }) s e,
  )
  resume_task-held p v i (writing m) c done s e =
      let s' = record s { sent = s.sent ++ m ∷ [] } in
      omega (
        arith,
        sum_by-snoc (λ m. bit (p m)) s.sent m,
        write_loop-held p v i c (record { task = writing m; cancelled = c }) s' e,
      )
  resume_task-held p v i (writing m) c failed s e = omega (
    arith,
    sum_by-snoc (λ m. bit (p m)) s.lost m,
    tally-put (in_flight_of p) i (record { task = writing m; cancelled = c })
        (record { task = ended; cancelled = c }) s e,
  )
  resume_task-held p v i read_spawned c done s e = omega (
    arith,
    tally-put (in_flight_of p) i (record { task = read_spawned; cancelled = c })
        (record { task = reading; cancelled = false }) s e,
  )
  resume_task-held p v i reading true (received bytes) s e =
      let (a, b) = deliver-held p v bytes s in
      end_reading-held p i true (deliver v bytes s) (rw b e) ∙ a
  resume_task-held p v i reading false (received bytes) s e = (deliver-held p v bytes s).0
  resume_task-held p v i reading c failed s e = end_reading-held p i c s e
  resume_task-held p v i _ c _ s e = refl

  resume_frame-held :
      (p : M → Bool) (v : Class) (i : ℕ) (o : Outcome) (s : Session M)
      → held p (resume_frame v i o s) ≡ held p s
  unfolding resume_frame
  resume_frame-held p v i o s = elim (Option-cases (get_elem? s.frames i)) [
    | inl e ↦ rw (e, resume_frame) refl
    | inr (f, e) ↦ rw (e, resume_frame) (resume_task-held p v i f.task f.cancelled o s e)
  ]

  step-held :
      (p : M → Bool) (v : Class) (e : Event M) (s : Session M)
      → held p (step v e s) ≡ held p s + count p (written (e ∷ []))
  unfolding step written
  step-held p v start_async s = omega (
    arith,
    sum_by-nil (λ m. bit (p m)),
    sum_by-snoc (λ (f : Frame M). in_flight_of p f.task) s.frames
        (record { task = running; cancelled = false }),
  )
  step-held p session_rw stop_async s = omega (arith, sum_by-nil (λ m. bit (p m)), emit-held p s)
  step-held p session_w stop_async s = omega (arith, sum_by-nil (λ m. bit (p m)))
  step-held p v (async_write m) s = omega (
    arith,
    sum_by-nil (λ m. bit (p m)),
    sum_by-cons (λ m. bit (p m)) m [],
    sum_by-snoc (λ m. bit (p m)) s.message_queue m,
    sum_by-snoc (λ (f : Frame M). in_flight_of p f.task) s.frames
        (record { task = write_spawned true; cancelled = false }),
  )
  step-held p v (resume i o) s =
      omega (arith, sum_by-nil (λ m. bit (p m)), resume_frame-held p v i o s)

  written-cons :
      (p : M → Bool) (e : Event M) (es : List (Event M))
      → count p (written (e ∷ es)) ≡ count p (written (e ∷ [])) + count p (written es)
  unfolding written
  written-cons p (async_write m) es = omega (
    arith,
    sum_by-nil (λ m. bit (p m)),
    sum_by-cons (λ m. bit (p m)) m [],
    sum_by-cons (λ m. bit (p m)) m (written es),
  )
  written-cons p _ es = omega (arith, sum_by-nil (λ m. bit (p m)))

  run-held :
      (p : M → Bool) (v : Class) (es : List (Event M)) (s : Session M)
      → held p (run v es s) ≡ held p s + count p (written es)
  unfolding run
  run-held p v [] s = unfold written in omega (arith, sum_by-nil (λ m. bit (p m)))
  run-held p v (e ∷ es) s =
      omega (arith, run-held p v es (step v e s), step-held p v e s, written-cons p e es)

  -- In every history of a session of either class each message that was given to AsyncWrite is in
  -- exactly one place, as often as it was given: written, lost to a write that failed, in the queue, or
  -- in the hands of one coroutine.
  pub run-conserved :
      (v : Class) (es : List (Event M)) (p : M → Bool)
      → let s = run v es new_session in
        count p s.sent + count p s.lost + count p s.message_queue + in_flight p s
        ≡ count p (written es)
  run-conserved v es p = omega (
    arith,
    run-held p v es new_session,
    sum_by-nil (λ m. bit (p m)),
    sum_by-nil (λ (f : Frame M). in_flight_of p f.task),
  )
