-- ===== src/Parsers/Unheard.antt =====
-- The responses to orders on Bybit.
use cryptobot_algo.Base.{
  ℕ, zero, suc, ◌≡◌, refl, ◌∙◌, Bool, true, false, Option, none, some, List, [], ◌∷◌,
}
use cryptobot_algo.Parsers.Doc.{DocApi, ◌>>=◌}
use cryptobot_algo.Parsers.Orders.{
  bybit_factory, read_item, make_order, parse_items, parse_bybit_order,
}
use cryptobot_algo.Listener.{
  Listener, new_listener, Event, run, enqueue, on_data_enqueued, begin, turn, step, process_queue,
  process, take_turn, handle_notice, begin_process,
}
use cryptobot_algo.Orders.Bybit as Bybit
use cryptobot_algo.Orders.Manager.{Manager}

bind-none :
    {A B : Type 0} (o : Option A) (f : A → Option B) → ((a : A) → f a ≡ none) → (o >>= f) ≡ none
bind-none none f h = refl
bind-none (some a) f h = h a

-- A listener whose parser knows nothing leaves its target alone.
module _ {Msg Parsed Target : Type 0} (parse : Msg → Option Parsed)
    (accept : Parsed → Target → Target) (deaf : (m : Msg) → parse m ≡ none) where
  process_queue-target :
      (queue : List Msg) (l : Listener Msg Target)
      → (process_queue parse accept queue l).target ≡ l.target
  unfolding process_queue process
  process_queue-target [] l = refl
  process_queue-target (m ∷ queue) l = rw (deaf m) refl

  step-target :
      (e : Event Msg) (l : Listener Msg Target) → (step parse accept e l).target ≡ l.target
  unfolding step handle_notice begin_process take_turn
  step-target (enqueue m) l = refl
  step-target on_data_enqueued l = noticed l.notices l
    where
      noticed :
          (n : ℕ) (l : Listener Msg Target) → (handle_notice parse accept n l).target ≡ l.target
      noticed zero l = refl
      noticed (suc n) l = refl
  step-target begin l = begun l.running l.spawned l
    where
      begun :
          (b : Bool) (n : ℕ) (l : Listener Msg Target)
          → (begin_process parse accept b n l).target ≡ l.target
      begun false (suc n) l = refl
      begun _ _ l = refl
  step-target turn l = turned l.running l
    where
      turned : (b : Bool) (l : Listener Msg Target) → (take_turn parse accept b l).target ≡ l.target
      turned true l = process_queue-target l.queue l
      turned false l = refl

  run-target :
      (es : List (Event Msg)) (l : Listener Msg Target) → (run parse accept es l).target ≡ l.target
  unfolding run
  run-target [] l = refl
  run-target (e ∷ es) l = run-target es (step parse accept e l) ∙ step-target e l

module _ (api : DocApi) where
  open api use {Doc, get_array}

  parse_items-none : (items : List Doc) → parse_items api bybit_factory items ≡ none
  unfolding parse_items make_order
  parse_items-none [] = refl
  parse_items-none (item ∷ items) =
      bind-none (read_item api item) _ (λ fields. parse_items-none items)

  -- No document is an event for the Bybit parser.
  pub parse_bybit_order-none : (doc : Doc) → parse_bybit_order api doc ≡ none
  unfolding parse_bybit_order
  parse_bybit_order-none doc =
      bind-none (get_array "data" doc) (parse_items api bybit_factory) parse_items-none

  -- `ProcessQueue` of the listener of the order responses: `iterate` of simdjson, the parser, and the
  -- watcher, which tells the order manager.
  module _ {Msg : Type 0} (iterate : Msg → Option Doc) where
    abbrev pub parse_response : Msg → Option Bybit.OrderEvent
    parse_response m = iterate m >>= parse_bybit_order api

    abbrev pub order_responses :
        List (Event Msg)
        → Manager Bybit.Category Bybit.OrderStatus
        → Listener Msg (Manager Bybit.Category Bybit.OrderStatus)
    order_responses es m = run parse_response Bybit.on_event es (new_listener m)

    -- Whatever the exchange answers and however its answers are processed, the order manager of Bybit is
    -- told nothing.
    pub order_responses-target :
        (es : List (Event Msg)) (m : Manager Bybit.Category Bybit.OrderStatus)
        → (order_responses es m).target ≡ m
    order_responses-target es m =
        run-target parse_response Bybit.on_event
          (λ msg. bind-none (iterate msg) (parse_bybit_order api) parse_bybit_order-none) es
          (new_listener m)
