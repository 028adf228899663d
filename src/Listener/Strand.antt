-- ===== src/Listener/Strand.antt =====
-- A listener whose receiver spawns a coroutine on a strand of its own for whatever it is given, as the
-- synchronisers of the order books do. The coroutines wait for the strand, which runs them one after
-- another, in the order in which they were spawned, at any time between the steps of the listener.
use cryptobot_algo.Base.{
  ℕ, zero, suc, ◌+◌, ◌≡◌, refl, sym, ap, ◌∙◌, Bool, true, false, Option, none, some, List, [], ◌∷◌,
  ◌++◌,
}
use cryptobot_algo.Listener.{
  Listener, new_listener, Event, enqueue, on_data_enqueued, begin, turn, process, process_queue,
  handle_notice, begin_process, take_turn, step, run, hand_over,
}
use cryptobot_algo.Listener.InOrder.{enqueued, run-in_order}

pub record Strand (I S : Type 0) : Type 0 where
  pub waiting : List I
  pub state : S

-- A step of the listener, or the next coroutine of the strand.
pub data Move (Msg : Type 0) : Type 0 where
  listen : Event Msg → Move Msg
  run_task : Move Msg

-- What the listener does in a history.
unfoldable pub listened : {Msg : Type 0} → List (Move Msg) → List (Event Msg)
listened [] = []
listened (listen e ∷ ms) = e ∷ listened ms
listened (run_task ∷ ms) = listened ms

module _ {I S : Type 0} (handle : I → S → S) where
  -- `co_spawn` of the handler.
  abbrev pub spawn_handler : I → Strand I S → Strand I S
  spawn_handler i t = record t { waiting = t.waiting ++ i ∷ [] }

  unfoldable pub take_task : List I → Strand I S → Strand I S
  take_task [] t = t
  take_task (i ∷ waiting) t = record { waiting = waiting; state = handle i t.state }

  module _ {Msg : Type 0} (parse : Msg → Option I) where
    unfoldable pub move : Move Msg → Listener Msg (Strand I S) → Listener Msg (Strand I S)
    unfolding step take_task
    move (listen e) l = step parse spawn_handler e l
    move run_task l = record l { target = take_task l.target.waiting l.target }

    unfoldable pub run_moves :
        List (Move Msg) → Listener Msg (Strand I S) → Listener Msg (Strand I S)
    unfolding move
    run_moves [] l = l
    run_moves (m ∷ ms) l = run_moves ms (move m l)

    -- The state once all that waits has run.
    settle : List I → S → S
    settle [] s = s
    settle (i ∷ is) s = settle is (handle i s)

    settle-append : (is : List I) (i : I) (s : S) → settle (is ++ i ∷ []) s ≡ handle i (settle is s)
    unfolding settle
    settle-append [] i s = refl
    settle-append (j ∷ is) i s = settle-append is i (handle j s)

    -- The listener without the strand: its receiver handles at once.
    abbrev settled : Listener Msg (Strand I S) → Listener Msg S
    settled l = record {
      queue = l.queue;
      notices = l.notices;
      spawned = l.spawned;
      running = l.running;
      target = settle l.target.waiting l.target.state;
    }

    process-settled :
        (o : Option I) (l : Listener Msg (Strand I S))
        → settled (process parse spawn_handler o l) ≡ process parse handle o (settled l)
    unfolding process
    process-settled none l = refl
    process-settled (some i) l =
        ap (λ (s : S). record (settled l) { target = s })
          (settle-append l.target.waiting i l.target.state)

    process_queue-settled :
        (queue : List Msg) (l : Listener Msg (Strand I S))
        → settled (process_queue parse spawn_handler queue l)
          ≡ process_queue parse handle queue (settled l)
    unfolding process_queue
    process_queue-settled [] l = refl
    process_queue-settled (m ∷ queue) l = process-settled (parse m) (record l { queue = queue })

    handle_notice-settled :
        (n : ℕ) (l : Listener Msg (Strand I S))
        → settled (handle_notice parse spawn_handler n l) ≡ handle_notice parse handle n (settled l)
    unfolding handle_notice
    handle_notice-settled zero l = refl
    handle_notice-settled (suc n) l = refl

    begin_process-settled :
        (b : Bool) (n : ℕ) (l : Listener Msg (Strand I S))
        → settled (begin_process parse spawn_handler b n l)
          ≡ begin_process parse handle b n (settled l)
    unfolding begin_process
    begin_process-settled true n l = refl
    begin_process-settled false zero l = refl
    begin_process-settled false (suc n) l = refl

    take_turn-settled :
        (b : Bool) (l : Listener Msg (Strand I S))
        → settled (take_turn parse spawn_handler b l) ≡ take_turn parse handle b (settled l)
    unfolding take_turn
    take_turn-settled true l = process_queue-settled l.queue l
    take_turn-settled false l = refl

    step-settled :
        (e : Event Msg) (l : Listener Msg (Strand I S))
        → settled (step parse spawn_handler e l) ≡ step parse handle e (settled l)
    unfolding step
    step-settled (enqueue m) l = refl
    step-settled on_data_enqueued l = handle_notice-settled l.notices l
    step-settled begin l = begin_process-settled l.running l.spawned l
    step-settled turn l = take_turn-settled l.running l

    take_task-settle :
        (waiting : List I) (t : Strand I S)
        → t.waiting ≡ waiting
        → settle (take_task waiting t).waiting (take_task waiting t).state
          ≡ settle t.waiting t.state
    unfolding take_task settle
    take_task-settle [] t e = refl
    take_task-settle (i ∷ waiting) t e = ap (λ is. settle is t.state) (sym e)

    -- Interleaving the strand with the listener changes nothing but when the state is reached.
    run_moves-settled :
        (ms : List (Move Msg)) (l : Listener Msg (Strand I S))
        → settled (run_moves ms l) ≡ run parse handle (listened ms) (settled l)
    unfolding run_moves move run listened
    run_moves-settled [] l = refl
    run_moves-settled (listen e ∷ ms) l =
        run_moves-settled ms (step parse spawn_handler e l)
        ∙ ap (run parse handle (listened ms)) (step-settled e l)
    run_moves-settled (run_task ∷ ms) l =
        run_moves-settled ms (record l { target = take_task l.target.waiting l.target })
        ∙ ap (λ (s : S). run parse handle (listened ms) (record (settled l) { target = s }))
            (take_task-settle l.target.waiting l.target refl)

    -- Once the listener is at rest and nothing waits for the strand, the state has handled what every
    -- message that can be parsed stands for, once, in the order in which the messages came.
    pub run_moves-in_order :
        (ms : List (Move Msg)) (s : S)
        → let l = run_moves ms (new_listener (record { waiting = []; state = s })) in
          l.running ≡ false
          → l.spawned + l.notices ≡ 0
          → l.target.waiting ≡ []
          → l.target.state ≡ hand_over parse handle (enqueued (listened ms)) s
    unfolding settle
    run_moves-in_order ms s still none_due idle =
        let start : Listener Msg (Strand I S) = new_listener (record { waiting = []; state = s }) in
        let l = run_moves ms start in
        let e = run_moves-settled ms start in
        let d =
          run-in_order parse handle (listened ms) s (ap (λ k. k.running) (sym e) ∙ still)
            (ap (λ k. k.spawned + k.notices) (sym e) ∙ none_due) in
        ap (λ is. settle is l.target.state) (sym idle) ∙ ap (λ k. k.target) e ∙ d.1
