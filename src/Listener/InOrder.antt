-- ===== src/Listener/InOrder.antt =====
-- What a listener hands over of what its queue was given.
use cryptobot_algo.Base.{
  ℕ, zero, suc, ◌+◌, ◌≤◌, ◌≡◌, refl, sym, ◌∙◌, ap, Bool, true, false, Option, none, some, List, [],
  ◌∷◌, ◌++◌, arith, length, length-append,
}
use cryptobot_algo.Listener.{
  Listener, new_listener, Event, enqueue, on_data_enqueued, begin, turn, process, process_queue,
  handle_notice, begin_process, take_turn, step, run, hand, hand_over,
}

-- The messages of a history.
unfoldable pub enqueued : {Msg : Type 0} → List (Event Msg) → List Msg
enqueued [] = []
enqueued (enqueue m ∷ es) = m ∷ enqueued es
enqueued (_ ∷ es) = enqueued es

module _ {Msg Parsed Target : Type 0} (parse : Msg → Option Parsed)
    (accept : Parsed → Target → Target) where
  abbrev handed : List Msg → Target → Target
  handed = hand_over parse accept

  hand_over-append : (xs ys : List Msg) (t : Target) → handed (xs ++ ys) t ≡ handed ys (handed xs t)
  unfolding hand_over
  hand_over-append [] ys t = refl
  hand_over-append (x ∷ xs) ys t = hand_over-append xs ys (hand parse accept (parse x) t)

  -- What the target will be once the queue has been handed over.
  abbrev due : Listener Msg Target → Target
  due l = handed l.queue l.target

  process-due :
      (o : Option Parsed) (l : Listener Msg Target)
      → due (process parse accept o l) ≡ handed l.queue (hand parse accept o l.target)
  unfolding process
  process-due none l = refl
  process-due (some p) l = refl

  process_queue-due :
      (queue : List Msg) (l : Listener Msg Target)
      → l.queue ≡ queue
      → due (process_queue parse accept queue l) ≡ handed queue l.target
  unfolding process_queue hand_over
  process_queue-due [] l e = rw e refl
  process_queue-due (m ∷ queue) l e = process-due (parse m) (record l { queue = queue })

  handle_notice-due :
      (n : ℕ) (l : Listener Msg Target) → due (handle_notice parse accept n l) ≡ due l
  unfolding handle_notice
  handle_notice-due zero l = refl
  handle_notice-due (suc n) l = refl

  begin_process-due :
      (b : Bool) (n : ℕ) (l : Listener Msg Target) → due (begin_process parse accept b n l) ≡ due l
  unfolding begin_process
  begin_process-due false (suc n) l = refl
  begin_process-due _ _ l = refl

  take_turn-due : (b : Bool) (l : Listener Msg Target) → due (take_turn parse accept b l) ≡ due l
  unfolding take_turn
  take_turn-due true l = process_queue-due l.queue l refl
  take_turn-due false l = refl

  step-due :
      (e : Event Msg) (l : Listener Msg Target)
      → due (step parse accept e l) ≡ handed (enqueued (e ∷ [])) (due l)
  unfolding step enqueued hand_over
  step-due (enqueue m) l = hand_over-append l.queue (m ∷ []) l.target
  step-due on_data_enqueued l = handle_notice-due l.notices l
  step-due begin l = begin_process-due l.running l.spawned l
  step-due turn l = take_turn-due l.running l

  enqueued-cons :
      (e : Event Msg) (es : List (Event Msg)) → enqueued (e ∷ es) ≡ enqueued (e ∷ []) ++ enqueued es
  unfolding enqueued
  enqueued-cons (enqueue m) es = refl
  enqueued-cons _ es = refl

  run-due :
      (es : List (Event Msg)) (l : Listener Msg Target)
      → due (run parse accept es l) ≡ handed (enqueued es) (due l)
  unfolding run
  run-due [] l = unfold enqueued hand_over in refl
  run-due (e ∷ es) l =
      run-due es (step parse accept e l)
      ∙ ap (handed (enqueued es)) (step-due e l)
      ∙ sym (hand_over-append (enqueued (e ∷ [])) (enqueued es) (due l))
      ∙ ap (λ ms. handed ms (due l)) (sym (enqueued-cons e es))

  -- For every message in the queue a coroutine will still come.
  abbrev busy : Bool → ℕ
  busy true = 1
  busy false = 0

  abbrev IsAttended : Listener Msg Target → Type 0
  IsAttended l = length l.queue ≤ l.spawned + l.notices + busy l.running

  process-IsAttended :
      (o : Option Parsed) (l : Listener Msg Target)
      → l.running ≡ true
      → length l.queue ≤ l.spawned + l.notices
      → IsAttended (process parse accept o l)
  unfolding process
  process-IsAttended none l r h = omega arith
  process-IsAttended (some p) l r h = rw r (omega arith)

  process_queue-IsAttended :
      (queue : List Msg) (l : Listener Msg Target)
      → l.running ≡ true
      → l.queue ≡ queue
      → IsAttended l
      → IsAttended (process_queue parse accept queue l)
  unfolding process_queue
  process_queue-IsAttended [] l r e h = omega (arith, ap length e)
  process_queue-IsAttended (m ∷ queue) l r e h =
      process-IsAttended (parse m) (record l { queue = queue }) r
        (let h' : length l.queue ≤ l.spawned + l.notices + 1 = rw r at h in
          omega (arith, h', ap length e))

  handle_notice-IsAttended :
      (n : ℕ) (l : Listener Msg Target)
      → l.notices ≡ n
      → IsAttended l
      → IsAttended (handle_notice parse accept n l)
  unfolding handle_notice
  handle_notice-IsAttended zero l e h = h
  handle_notice-IsAttended (suc n) l e h = omega (arith, h, e)

  begin_process-IsAttended :
      (b : Bool) (n : ℕ) (l : Listener Msg Target)
      → l.running ≡ b
      → l.spawned ≡ n
      → IsAttended l
      → IsAttended (begin_process parse accept b n l)
  unfolding begin_process
  begin_process-IsAttended false (suc n) l r e h =
      let h' : length l.queue ≤ l.spawned + l.notices + 0 = rw r at h in omega (arith, h', e)
  begin_process-IsAttended _ _ l r e h = h

  take_turn-IsAttended :
      (b : Bool) (l : Listener Msg Target)
      → l.running ≡ b
      → IsAttended l
      → IsAttended (take_turn parse accept b l)
  unfolding take_turn
  take_turn-IsAttended true l r h = process_queue-IsAttended l.queue l r refl h
  take_turn-IsAttended false l r h = h

  step-IsAttended :
      (e : Event Msg) (l : Listener Msg Target) → IsAttended l → IsAttended (step parse accept e l)
  unfolding step
  step-IsAttended (enqueue m) l h = omega (arith, h, length-append l.queue (m ∷ []))
  step-IsAttended on_data_enqueued l h = handle_notice-IsAttended l.notices l refl h
  step-IsAttended begin l h = begin_process-IsAttended l.running l.spawned l refl refl h
  step-IsAttended turn l h = take_turn-IsAttended l.running l refl h

  run-IsAttended :
      (es : List (Event Msg)) (l : Listener Msg Target)
      → IsAttended l
      → IsAttended (run parse accept es l)
  unfolding run
  run-IsAttended [] l h = h
  run-IsAttended (e ∷ es) l h = run-IsAttended es (step parse accept e l) (step-IsAttended e l h)

  empty : (ms : List Msg) → length ms ≤ 0 → ms ≡ []
  empty [] h = refl
  empty (m ∷ ms) h = absurd (omega arith)

  -- When no coroutine runs or waits for the strand and no call of OnDataEnqueued is due, the queue is
  -- empty, and every message of the history that can be parsed has been handed over once, in the order
  -- in which they came, whatever was enqueued while the coroutines ran.
  pub run-in_order :
      (es : List (Event Msg)) (target : Target)
      → let l = run parse accept es (new_listener target) in
        l.running ≡ false
        → l.spawned + l.notices ≡ 0
        → (l.queue ≡ []) × (l.target ≡ hand_over parse accept (enqueued es) target)
  run-in_order es target still none_due =
      let l = run parse accept es (new_listener target) in
      let h = run-IsAttended es (new_listener target) (omega arith) in
      let h' : length l.queue ≤ l.spawned + l.notices + 0 = rw still at h in
      let e : l.queue ≡ [] = empty l.queue (omega (arith, h', none_due)) in
      let d = run-due es (new_listener target) in
      (e, unfold hand_over in (ap (λ ms. handed ms l.target) (sym e) ∙ d))
