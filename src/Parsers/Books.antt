-- ===== src/Parsers/Books.antt =====
-- The listeners of order book messages, with their parsers and synchronisers:
-- response_queue_listener/json/ws/diff_response and rest/snapshot of Binance, and
-- ws/order_book_response of Bybit. A synchroniser spawns a coroutine on its own strand for each event
-- that it is given. What simdjson makes of a message is the parameter `iterate`.
use cryptobot_algo.Base.{ℕ, ◌+◌, ◌≡◌, refl, sym, ◌∙◌, false, Option, none, some, List, [], ◌∷◌}
use cryptobot_algo.Parsers.Doc.{DocApi, ◌>>=◌}
use cryptobot_algo.Parsers.Levels.{spot, futures, parse_diff, parse_snapshot, parse_book_event}
use cryptobot_algo.Listener.{Listener, new_listener, hand, hand_over}
use cryptobot_algo.Listener.InOrder.{enqueued}
use cryptobot_algo.Listener.Strand.{Strand, Move, listened, run_moves, run_moves-in_order}
use cryptobot_algo.Binance.Sync as Binance
use cryptobot_algo.Binance.Events.{Snapshot, Diff}
use cryptobot_algo.Bybit.Sync as Bybit
use cryptobot_algo.Bybit.Sync.Order.{InOrder}

-- A synchroniser with nothing to do.
abbrev pub idle_strand : {I S : Type 0} → S → Strand I S
idle_strand s = record { waiting = []; state = s }

module _ (api : DocApi) {Msg : Type 0} (iterate : Msg → Option api.Doc) where
  -- The listeners of the two markets: diffs, and snapshots for the pair that was set.
  abbrev pub spot_diff_responses :
      List (Move Msg) → Binance.Sync → Listener Msg (Strand Diff Binance.Sync)
  spot_diff_responses ms s =
      run_moves (λ d s. Binance.spot_process_diff s d) (λ m. iterate m >>= parse_diff api spot) ms
        (new_listener (idle_strand s))

  abbrev pub futures_diff_responses :
      List (Move Msg) → Binance.Sync → Listener Msg (Strand Diff Binance.Sync)
  futures_diff_responses ms s =
      run_moves (λ d s. Binance.futures_process_diff s d)
        (λ m. iterate m >>= parse_diff api futures) ms (new_listener (idle_strand s))

  abbrev pub spot_snapshot_responses :
      ℕ → List (Move Msg) → Binance.Sync → Listener Msg (Strand Snapshot Binance.Sync)
  spot_snapshot_responses pair ms s =
      run_moves (λ p s. Binance.process_snapshot s p) (λ m. iterate m >>= parse_snapshot api pair)
        ms (new_listener (idle_strand s))

  abbrev pub futures_snapshot_responses :
      ℕ → List (Move Msg) → Binance.Sync → Listener Msg (Strand Snapshot Binance.Sync)
  futures_snapshot_responses pair ms s =
      run_moves (λ p s. Binance.futures_process_snapshot s p)
        (λ m. iterate m >>= parse_snapshot api pair) ms (new_listener (idle_strand s))

  abbrev pub parse_book : Msg → Option Bybit.Input
  parse_book m = iterate m >>= parse_book_event api

  abbrev take_in : Bybit.Input → Bybit.Sync → Bybit.Sync
  take_in i s = Bybit.step s i

  abbrev pub book_responses :
      List (Move Msg) → Bybit.Sync → Listener Msg (Strand Bybit.Input Bybit.Sync)
  book_responses ms s = run_moves take_in parse_book ms (new_listener (idle_strand s))

  -- The inputs that messages stand for.
  abbrev pub add_input : Option Bybit.Input → List Bybit.Input → List Bybit.Input
  add_input none inputs = inputs
  add_input (some i) inputs = i ∷ inputs

  unfoldable pub inputs_of : List Msg → List Bybit.Input
  inputs_of [] = []
  inputs_of (m ∷ ms) = add_input (parse_book m) (inputs_of ms)

  run-add_input :
      (o : Option Bybit.Input) (inputs : List Bybit.Input) (s : Bybit.Sync)
      → Bybit.run s (add_input o inputs) ≡ Bybit.run (hand parse_book take_in o s) inputs
  unfolding Bybit.run
  run-add_input none inputs s = refl
  run-add_input (some i) inputs s = refl

  hand_over-run :
      (ms : List Msg) (s : Bybit.Sync)
      → hand_over parse_book take_in ms s ≡ Bybit.run s (inputs_of ms)
  unfolding hand_over inputs_of
  hand_over-run [] s = unfold Bybit.run in refl
  hand_over-run (m ∷ ms) s =
      hand_over-run ms (hand parse_book take_in (parse_book m) s)
      ∙ sym (run-add_input (parse_book m) (inputs_of ms) s)

  -- However the steps of the listener of Bybit's order book messages and the coroutines on the strand of
  -- its synchroniser are interleaved: once the listener is at rest and nothing waits for the strand, the
  -- synchroniser is in the state into which it comes when it is given the events of all messages one
  -- after another, in the order in which the messages came, those that do not parse left out.
  pub book_responses-run :
      (ms : List (Move Msg)) (s : Bybit.Sync)
      → let l = book_responses ms s in
        l.running ≡ false
        → l.spawned + l.notices ≡ 0
        → l.target.waiting ≡ []
        → l.target.state ≡ Bybit.run s (inputs_of (enqueued (listened ms)))
  book_responses-run ms s still none_due idle =
      run_moves-in_order take_in parse_book ms s still none_due idle
      ∙ hand_over-run (enqueued (listened ms)) s
