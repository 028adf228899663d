-- ===== src/Listener/Sound.antt =====
-- What holds of the state on the strand at every moment, whatever still waits.
use cryptobot_algo.Base.{
  ℕ, zero, suc, Bool, true, false, Option, none, some, List, [], ◌∷◌, All, All-append,
}
use cryptobot_algo.Listener.{
  Listener, new_listener, enqueue, on_data_enqueued, begin, turn, process, process_queue,
  handle_notice, begin_process, take_turn, step,
}
use cryptobot_algo.Listener.InOrder.{enqueued}
use cryptobot_algo.Listener.Strand.{
  Strand, Move, listen, run_task, listened, spawn_handler, take_task, move, run_moves,
}

-- What a message is parsed to, if anything, satisfies a predicate.
abbrev pub Parses : {I : Type 0} → (I → Type 0) → Option I → Type 0
Parses P none = Unit
Parses P (some i) = P i

module _ {I S Msg : Type 0} (handle : I → S → S) (parse : Msg → Option I) (P : I → Type 0)
    (Q : S → Type 0) (keeps : (i : I) (s : S) → P i → Q s → Q (handle i s)) where
  record IsSound (l : Listener Msg (Strand I S)) : Type 0 where
    queue : All (λ m. Parses P (parse m)) l.queue
    waiting : All P l.target.waiting
    state : Q l.target.state

  process-IsSound :
      (o : Option I) (l : Listener Msg (Strand I S))
      → Parses P o
      → IsSound l
      → IsSound (process parse (spawn_handler handle) o l)
  unfolding process
  process-IsSound none l p h = record { queue = h.queue; waiting = h.waiting; state = h.state }
  process-IsSound (some i) l p h = record {
    queue = h.queue;
    waiting = All-append P l.target.waiting (i ∷ []) h.waiting (p, tt);
    state = h.state;
  }

  process_queue-IsSound :
      (queue : List Msg) (l : Listener Msg (Strand I S))
      → All (λ m. Parses P (parse m)) queue
      → IsSound l
      → IsSound (process_queue parse (spawn_handler handle) queue l)
  unfolding process_queue
  process_queue-IsSound [] l q h = record { queue = h.queue; waiting = h.waiting; state = h.state }
  process_queue-IsSound (m ∷ queue) l (p, ps) h =
      process-IsSound (parse m) (record l { queue = queue }) p
        (record { queue = ps; waiting = h.waiting; state = h.state })

  handle_notice-IsSound :
      (n : ℕ) (l : Listener Msg (Strand I S))
      → IsSound l
      → IsSound (handle_notice parse (spawn_handler handle) n l)
  unfolding handle_notice
  handle_notice-IsSound zero l h = h
  handle_notice-IsSound (suc n) l h = record {
    queue = h.queue;
    waiting = h.waiting;
    state = h.state;
  }

  begin_process-IsSound :
      (b : Bool) (n : ℕ) (l : Listener Msg (Strand I S))
      → IsSound l
      → IsSound (begin_process parse (spawn_handler handle) b n l)
  unfolding begin_process
  begin_process-IsSound true n l h = h
  begin_process-IsSound false zero l h = h
  begin_process-IsSound false (suc n) l h = record {
    queue = h.queue;
    waiting = h.waiting;
    state = h.state;
  }

  take_turn-IsSound :
      (b : Bool) (l : Listener Msg (Strand I S))
      → IsSound l
      → IsSound (take_turn parse (spawn_handler handle) b l)
  unfolding take_turn
  take_turn-IsSound true l h = process_queue-IsSound l.queue l h.queue h
  take_turn-IsSound false l h = h

  take_task-IsSound :
      (waiting : List I) (l : Listener Msg (Strand I S))
      → All P waiting
      → IsSound l
      → IsSound (record l { target = take_task handle waiting l.target })
  unfolding take_task
  take_task-IsSound [] l ps h = record { queue = h.queue; waiting = h.waiting; state = h.state }
  take_task-IsSound (i ∷ waiting) l (p, ps) h = record {
    queue = h.queue;
    waiting = ps;
    state = keeps i l.target.state p h.state;
  }

  run_moves-IsSound :
      (ms : List (Move Msg)) (l : Listener Msg (Strand I S))
      → All (λ m. Parses P (parse m)) (enqueued (listened ms))
      → IsSound l
      → IsSound (run_moves handle parse ms l)
  unfolding run_moves move step listened enqueued
  run_moves-IsSound [] l ps h = h
  run_moves-IsSound (listen (enqueue m) ∷ ms) l (p, ps) h = run_moves-IsSound ms _ ps (record {
    queue = All-append (λ m. Parses P (parse m)) l.queue (m ∷ []) h.queue (p, tt);
    waiting = h.waiting;
    state = h.state;
  })
  run_moves-IsSound (listen on_data_enqueued ∷ ms) l ps h =
      run_moves-IsSound ms _ ps (handle_notice-IsSound l.notices l h)
  run_moves-IsSound (listen begin ∷ ms) l ps h =
      run_moves-IsSound ms _ ps (begin_process-IsSound l.running l.spawned l h)
  run_moves-IsSound (listen turn ∷ ms) l ps h =
      run_moves-IsSound ms _ ps (take_turn-IsSound l.running l h)
  run_moves-IsSound (run_task ∷ ms) l ps h =
      run_moves-IsSound ms _ ps (take_task-IsSound l.target.waiting l h.waiting h)

  -- A property of the state that every input keeps, of those to which the messages of the history are
  -- parsed, holds at every moment.
  pub run_moves-keeps :
      (ms : List (Move Msg)) (s : S)
      → All (λ m. Parses P (parse m)) (enqueued (listened ms))
      → Q s
      → Q
          (run_moves handle parse ms
            (new_listener (record { waiting = []; state = s }))).target.state
  run_moves-keeps ms s ps q =
      (run_moves-IsSound ms (new_listener (record { waiting = []; state = s })) ps
        (record { queue = tt; waiting = tt; state = q })).state
