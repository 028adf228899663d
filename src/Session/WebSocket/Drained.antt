-- ===== src/Session/WebSocket/Drained.antt =====
-- What a session has written that is ready and has come to rest.
use cryptobot_algo.Base.{
  ℕ, zero, suc, ◌+◌, ◌<◌, ◌≤◌, ◌≡◌, ap, Bool, true, false, List, [], arith, length,
}
use cryptobot_algo.Base.Arrays.{sum_by_mono, sum_by-le-length}
use cryptobot_algo.Session.WebSocket.{
  session_rw, Task, delayed, writing, Frame, new_session, Event, run,
}
use cryptobot_algo.Session.WebSocket.Frames.{tally}
use cryptobot_algo.Session.WebSocket.Held.{bit, count, in_flight_of}
use cryptobot_algo.Session.WebSocket.Conserved.{written, run-conserved}
use cryptobot_algo.Session.WebSocket.Keeps.{live_of, halts}
use cryptobot_algo.Session.WebSocket.Served.{run-IsServed}

bit-le : (b : Bool) → bit b ≤ 1
bit-le true = omega arith
bit-le false = omega arith

module _ {M : Type 0} where
  in_flight_of-le : (p : M → Bool) (t : Task M) → in_flight_of p t ≤ live_of t
  in_flight_of-le p (delayed m) = bit-le (p m)
  in_flight_of-le p (writing m) = bit-le (p m)
  in_flight_of-le p _ = omega arith

  -- In a session that reads and writes, once it is ready, no coroutine is writing or about to write, no
  -- write has failed and no loop was cancelled, every message that was given to AsyncWrite has been
  -- written, also those that were given before the session was ready, and as often as it was given.
  pub run-drained :
      (es : List (Event M)) (p : M → Bool)
      → let s = run session_rw es new_session in
        s.session_ready ≡ true
        → tally live_of s ≡ 0
        → s.lost ≡ []
        → halts s ≡ 0
        → count p s.sent ≡ count p (written es)
  run-drained es p ready rest kept going =
      let s = run session_rw es new_session in
      let served = run-IsServed es new_session (λ r n. absurd (cc)) ready in
      let few : length s.message_queue ≤ 0 = idle-queue (length s.message_queue) served in
      omega (
        arith,
        run-conserved session_rw es p,
        sum_by-le-length (λ m. bit (p m)) s.message_queue (λ m. bit-le (p m)),
        sum_by-le-length (λ m. bit (p m)) s.lost (λ m. bit-le (p m)),
        ap length kept,
        sum_by_mono (λ (f : Frame M). in_flight_of p f.task) (λ (f : Frame M). live_of f.task)
            s.frames (λ f. in_flight_of-le p f.task),
      )
    where
      idle-queue :
          (n : ℕ)
          → (0 < n
              → 0
                < tally live_of (run session_rw es new_session)
                  + length (run session_rw es new_session).lost
                  + halts (run session_rw es new_session))
          → n ≤ 0
      idle-queue zero h = omega arith
      idle-queue (suc n) h = absurd (omega (arith, h (omega arith), rest, ap length kept, going))
