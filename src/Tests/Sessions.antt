-- ===== src/Tests/Sessions.antt =====
-- Web socket sessions, with numbers for messages.
use cryptobot_algo.Base.{ℕ, ◌+◌, ◌≡◌, ◌==◌, refl, true, false, some, List, [], ◌∷◌, ◌++◌, length}
use cryptobot_algo.Base.Arrays.{get_elem?, sum_by}
use cryptobot_algo.Session.WebSocket.{
  session_rw, session_w, Connection, done, received, attempted, Frame, new_session, Event,
  start_async, stop_async, async_write, resume, run,
}
use cryptobot_algo.Session.WebSocket.Held.{count, in_flight}
use cryptobot_algo.Session.WebSocket.Conserved.{written, run-conserved}
use cryptobot_algo.Session.WebSocket.Drained.{run-drained}
use cryptobot_algo.Session.WebSocket.Silent.{run-silent}
use cryptobot_algo.Session.WebSocket.Unconnected.{run-unconnected}
use cryptobot_algo.Session.WebSocket.Overlap.{begin_write, stop_after_write}

abbrev up : Connection
up = record {
  resolved = true;
  host_name_set = true;
  connected = true;
  ssl_handshake = true;
  handshake = true;
}

abbrev refused : Connection
refused = record up { connected = false }

-- A message before the session is ready, the connection, and all writes.
abbrev connecting : List (Event ℕ)
connecting =
    async_write 5
    ∷ start_async
    ∷ resume 0 done
    ∷ resume 1 (attempted up)
    ∷ resume 2 done
    ∷ resume 3 done
    ∷ resume 2 done
    ∷ resume 2 done
    ∷ []

abbrev busy : List (Event ℕ)
busy =
    connecting ++ resume 3 (received (9 ∷ [])) ∷ async_write 7 ∷ resume 4 done ∷ resume 4 done ∷ []

run-conserved_example :
    let s = run session_rw busy new_session in
    count (λ m. m == 7) s.sent
      + count (λ m. m == 7) s.lost
      + count (λ m. m == 7) s.message_queue
      + in_flight (λ m. m == 7) s
    ≡ count (λ m. m == 7) (written busy)
run-conserved_example = run-conserved session_rw busy (λ m. m == 7)

run-drained_example :
    count (λ m. m == 5) (run session_rw connecting new_session).sent
    ≡ count (λ m. m == 5) (written connecting)
unfolding run sum_by
run-drained_example = run-drained connecting (λ m. m == 5) refl refl refl refl

drained : ((run session_rw connecting new_session).sent ≡ 5 ∷ [])
unfolding run
drained = refl

run-silent_example :
    (run session_w (async_write 8 ∷ resume 4 done ∷ []) (run session_w connecting new_session)).sent
    ≡ (run session_w connecting new_session).sent
unfolding run sum_by
run-silent_example =
    run-silent connecting (async_write 8 ∷ resume 4 done ∷ []) refl (refl, (refl, tt))

run-unconnected_example :
    let s =
      run session_rw
        (start_async ∷ async_write 5 ∷ resume 0 (attempted refused) ∷ stop_async ∷ [])
        (new_session {M = ℕ}) in
    (s.sent ≡ []) × (s.read_done ≡ false) × (s.write_done ≡ false)
run-unconnected_example =
    run-unconnected session_rw
      (start_async ∷ async_write 5 ∷ resume 0 (attempted refused) ∷ stop_async ∷ [])
      (refl, (refl, (refl, (refl, tt))))

stop_after_write_example :
    let s = run session_rw connecting new_session in
    let t =
      run session_rw
        (resume (length s.frames) done ∷ stop_async ∷ [])
        (run session_rw (begin_write 6 s) s) in
    (t.dangling ≡ true)
    × (t.sent ≡ s.sent ++ 6 ∷ [])
    × ((i : ℕ) (f : Frame ℕ) → get_elem? s.frames i ≡ some f → get_elem? t.frames i ≡ some f)
unfolding run
stop_after_write_example = stop_after_write 6 (run session_rw connecting new_session) refl refl
