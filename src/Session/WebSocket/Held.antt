-- ===== src/Session/WebSocket/Held.antt =====
-- Where the messages of a session are, and which steps keep how many there are.
use cryptobot_algo.Base.{
  ℕ, ◌+◌, ◌≡◌, refl, ap, Bool, true, false, some, List, [], ◌∷◌, ◌++◌, arith, Bool-cases,
  Option-cases, inl, inr,
}
use cryptobot_algo.Base.Arrays.{get_elem?, set, sum_by, sum_by-cons, sum_by-snoc, sum_by-set}
use cryptobot_algo.Session.WebSocket.{
  Class, session_rw, session_w, Connection, Task, running, read_spawned, reading, ended,
  write_spawned, delayed, writing, Frame, Session, is_up, emit, write_loop, dequeue, end_read,
  deliver, finish_run,
}
use cryptobot_algo.Session.WebSocket.Frames.{tally, emit-cases, tally-put, emit-task}

abbrev pub bit : Bool → ℕ
bit true = 1
bit false = 0

module _ {M : Type 0} where
  -- How many messages of a list pass a test.
  abbrev pub count : (M → Bool) → List M → ℕ
  count p = sum_by (λ m. bit (p m))

  abbrev pub in_flight_of : (M → Bool) → Task M → ℕ
  in_flight_of p (delayed m) = bit (p m)
  in_flight_of p (writing m) = bit (p m)
  in_flight_of p _ = 0

  abbrev pub in_flight : (M → Bool) → Session M → ℕ
  in_flight p s = tally (in_flight_of p) s

  -- Where the messages of a session are.
  abbrev pub held : (M → Bool) → Session M → ℕ
  held p s = count p s.sent + count p s.lost + count p s.message_queue + in_flight p s

  pub emit-held : (p : M → Bool) (s : Session M) → held p (emit s) ≡ held p s
  emit-held p s = elim (emit-cases s) [
    | inl (inl e) ↦ rw e refl
    | inl (inr e) ↦ rw e refl
    | inr (i, f, g, live, e) ↦ rw e (
        omega (
          arith,
          sum_by-set (λ f. in_flight_of p f.task) s.frames i f (record f { cancelled = true }) g,
        ))
  ]

  dequeue-held :
      (p : M → Bool) (v : Class) (i : ℕ) (c : Bool) (queue : List M) (f : Frame M) (s : Session M)
      → get_elem? s.frames i ≡ some f
      → s.message_queue ≡ queue
      → held p (dequeue v i c queue s) + in_flight_of p f.task ≡ held p s
  unfolding dequeue
  dequeue-held p session_rw i c [] f s e q =
      omega (arith, tally-put (in_flight_of p) i f (record { task = ended; cancelled = c }) s e)
  dequeue-held p session_w i c [] f s e q =
      omega (arith, tally-put (in_flight_of p) i f (record { task = ended; cancelled = c }) s e)
  dequeue-held p v i c (m ∷ queue) f s e q = rw q (
      omega (
        arith,
        sum_by-cons (λ m. bit (p m)) m queue,
        tally-put (in_flight_of p) i f (record { task = delayed m; cancelled = c }) s e,
      ))

  pub write_loop-held :
      (p : M → Bool) (v : Class) (i : ℕ) (c : Bool) (f : Frame M) (s : Session M)
      → get_elem? s.frames i ≡ some f
      → held p (write_loop v i c s) + in_flight_of p f.task ≡ held p s
  unfolding write_loop
  write_loop-held p v i true f s e =
      omega (arith, tally-put (in_flight_of p) i f (record { task = ended; cancelled = true }) s e)
  write_loop-held p v i false f s e = dequeue-held p v i false s.message_queue f s e refl

  end_read-held :
      (p : M → Bool) (i : ℕ) (s : Session M)
      → ((f : Frame M) → get_elem? (emit s).frames i ≡ some f → in_flight_of p f.task ≡ 0)
      → held p (end_read i s) ≡ held p s
  unfolding end_read
  end_read-held p i s idle = elim (Option-cases (get_elem? (emit s).frames i)) [
    | inl e ↦ rw (end_read, e) (emit-held p s)
    | inr (f, e) ↦
        rw (end_read, e)
          (omega (
            arith,
            emit-held p s,
            idle f e,
            tally-put (in_flight_of p) i f (record f { task = ended }) (emit s) e,
          ))
  ]

  -- The end of ReadLoop moves no message.
  pub end_reading-held :
      (p : M → Bool) (i : ℕ) (c : Bool) (s : Session M)
      → get_elem? s.frames i ≡ some (record { task = reading; cancelled = c })
      → held p (end_read i s) ≡ held p s
  end_reading-held p i c s e = end_read-held p i s (λ g e'.
      ap (in_flight_of p) (emit-task s i (record { task = reading; cancelled = c }) g e e'))

  pub deliver-held :
      (p : M → Bool) (v : Class) (bytes : List ℕ) (s : Session M)
      → (held p (deliver v bytes s) ≡ held p s) × ((deliver v bytes s).frames ≡ s.frames)
  deliver-held p session_rw (b ∷ bytes) s = (refl, refl)
  deliver-held p _ _ s = (refl, refl)

  pub finish_run-held :
      (p : M → Bool) (v : Class) (i : ℕ) (c : Bool) (a : Connection) (s : Session M)
      → get_elem? s.frames i ≡ some (record { task = running; cancelled = c })
      → held p (finish_run v i a s) ≡ held p s
  unfolding finish_run
  finish_run-held p v i c a s e =
      let w = in_flight_of p in
      let f : Frame M = record { task = ended; cancelled = false } in
      let put = tally-put w i (record { task = running; cancelled = c }) f s e in
      elim (Bool-cases (is_up a)) [
        | inl up ↦ rw up (
            omega (
              arith,
              put,
              sum_by-snoc (λ (f : Frame M). w f.task) (set s.frames i f)
                  (record { task = write_spawned false; cancelled = false }),
              sum_by-snoc (λ (f : Frame M). w f.task)
                  (set s.frames i f
                    ++ record { task = write_spawned false; cancelled = false } ∷ [])
                  (record { task = read_spawned; cancelled = false }),
            ))
        | inr down ↦ rw down (omega (arith, put))
      ]
