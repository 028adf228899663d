-- ===== src/Binance/Sync/Recovery.antt =====
-- How a synchroniser gets in step with the exchange, and back in step after a lost packet.
use cryptobot_algo.Base.{
  ℕ, ◌≤◌, ◌<◌, ◌≡◌, refl, ◌∙◌, Bool, true, false, not, ◌&&◌, some, List, [], ◌∷◌, ◌++◌, arith,
  if-intro, ◌==◌,
}
use cryptobot_algo.Binance.Events.{Snapshot, Diff, k_count}
use cryptobot_algo.Binance.Sync.{
  Sync, Call, clear, snapshot, diff, skip, spans, next_id, process_snapshot, deliver,
  apply_snapshot, drain, process_buffered, process_diff,
}
use cryptobot_algo.Binance.Sync.Invariant.{
  Inv, push-Inv, Reach, Reach-Inv, start, on_diff, on_snapshot,
}
use cryptobot_algo.Binance.Sync.Buffer.{
  final_of, push_all, Unspanned, final_of-append, skip_all, skip-append,
}

module _ (lost : ℕ → Diff → Bool) where
  -- A run of diffs with no lost packet, after the update `last`.
  abbrev pub Continues : ℕ → List Diff → Type 0
  Continues last [] = Unit
  Continues last (d ∷ ds) = (lost last d ≡ false) × Continues d.final_update_id ds

  -- The book got the run `ds` after the calls `cs`, and the synchroniser follows the exchange.
  pub record InStep (last : ℕ) (ds : List Diff) (cs : List Call) (s : Sync) : Type 0 where
    pub got : s.calls ≡ push_all ds cs
    pub processed : s.snapshot_was_processed ≡ true
    pub emptied : s.diffs ≡ []
    pub at_last : s.last_diff_update_id ≡ final_of last ds

  drain-Continues :
      (ds : List Diff) (s : Sync)
      → s.snapshot_was_processed ≡ true
      → Continues s.last_diff_update_id ds
      → InStep s.last_diff_update_id ds s.calls (drain lost ds s)
  unfolding drain
  drain-Continues [] s p h = ground arith
  drain-Continues (d ∷ ds) s p (h, hs) =
      rw h
        (grind (arith, drain-Continues ds (record (deliver s d) { diff_packet_lost = false }) p hs))

  drain_empties : (ds : List Diff) (s : Sync) → (drain lost ds s).diffs ≡ []
  unfolding drain
  drain_empties [] s = refl
  drain_empties (d ∷ ds) s =
      ground (arith, drain_empties ds (record (deliver s d) { diff_packet_lost = false }))

  -- The state in which the loop over the buffer starts, after a good snapshot.
  abbrev applied : Sync → Snapshot → ℕ → List Diff → Sync
  applied s p last ds = record s {
    last_diff_update_id = last;
    last_snapshot_update_id = p.update_id;
    need_process_current_snapshot = false;
    snapshot_request_in_flight = false;
    snapshot_was_processed = true;
    last_snapshot = some p;
    diffs = ds;
    calls = snapshot (some p) ∷ s.calls;
  }

  snapshot_then_diff_drains :
      (s : Sync) (p : Snapshot) (d : Diff) (last : ℕ) (rest : List Diff)
      → Inv lost s
      → s.snapshot_request_in_flight ≡ true
      → (p.trading_pair == k_count) ≡ false
      → skip p.update_id s.last_diff_update_id s.diffs ≡ (last, rest)
      → process_diff lost (process_snapshot s p) d
        ≡ drain lost (rest ++ d ∷ []) (applied s p last (rest ++ d ∷ []))
  unfolding process_diff process_snapshot process_buffered
  snapshot_then_diff_drains s p d last rest v f k e = let w = v.waiting f in rw (e, k, w.0, w.1)

  snapshot_then_diff :
      (s : Sync) (p : Snapshot) (d : Diff) (last : ℕ) (rest : List Diff)
      → Inv lost s
      → s.snapshot_request_in_flight ≡ true
      → (p.trading_pair == k_count) ≡ false
      → skip p.update_id s.last_diff_update_id s.diffs ≡ (last, rest)
      → Continues last (rest ++ d ∷ [])
      → InStep last
          (rest ++ d ∷ [])
          (snapshot (some p) ∷ s.calls)
          (process_diff lost (process_snapshot s p) d)
  snapshot_then_diff s p d last rest v f k e h =
      rw (snapshot_then_diff_drains s p d last rest v f k e)
        (drain-Continues (rest ++ d ∷ []) (applied s p last (rest ++ d ∷ [])) refl h)

  -- A synchroniser that waits for a snapshot has buffered diffs `old` which do not span the update
  -- after the snapshot, then `first` which does, then `news`. Suppose that no check reports a lost
  -- packet: neither that of `first`, against the last update of `old` or, where `old` is empty, against
  -- the last update that was noted before, nor those of `news` and of the next diff `d`, each against
  -- the diff before it. Then after the snapshot (of a real pair) and `d` the book got the snapshot,
  -- `first`, `news` and `d`, in this order; the synchroniser follows the exchange at the last update of
  -- `d`, and the buffer is empty.
  pub resync :
      (s : Sync) (p : Snapshot) (old : List Diff) (first : Diff) (news : List Diff) (d : Diff)
      → Inv lost s
      → s.snapshot_request_in_flight ≡ true
      → (p.trading_pair == k_count) ≡ false
      → s.diffs ≡ old ++ first ∷ news
      → Unspanned p.update_id old
      → spans p.update_id first ≡ true
      → Continues (final_of s.last_diff_update_id old) (first ∷ news ++ d ∷ [])
      → let s' = process_diff lost (process_snapshot s p) d in
        (s'.calls ≡ push_all (first ∷ news ++ d ∷ []) (snapshot (some p) ∷ s.calls))
        × (s'.snapshot_was_processed ≡ true)
        × (s'.diffs ≡ [])
        × (s'.last_diff_update_id ≡ d.final_update_id)
  resync s p old first news d v f k e u t h =
      let last = final_of s.last_diff_update_id old in
      let dropped : skip p.update_id s.last_diff_update_id s.diffs ≡ (last, first ∷ news) =
        rw e (skip-append p.update_id s.last_diff_update_id old first news u t) in
      let r = snapshot_then_diff s p d last (first ∷ news) v f k dropped h in
      (r.got, r.processed, r.emptied, r.at_last ∙ final_of-append first.final_update_id news d)

  -- If the check of the diff that spans the update after the snapshot reports a lost packet, also where
  -- it is the first diff of all and is checked against the initial 0: after the snapshot and the next
  -- diff `d` the book got the snapshot and nothing else, and the synchroniser does not follow the
  -- exchange; the diff after that, whatever it is, clears the book and requests another snapshot.
  pub spanning_lost :
      (s : Sync) (p : Snapshot) (old : List Diff) (first : Diff) (news : List Diff) (d e : Diff)
      → Inv lost s
      → s.snapshot_request_in_flight ≡ true
      → (p.trading_pair == k_count) ≡ false
      → s.diffs ≡ old ++ first ∷ news
      → Unspanned p.update_id old
      → spans p.update_id first ≡ true
      → lost (final_of s.last_diff_update_id old) first ≡ true
      → let s1 = process_diff lost (process_snapshot s p) d in
        let s2 = process_diff lost s1 e in
        (s1.calls ≡ snapshot (some p) ∷ s.calls)
        × (s1.snapshot_was_processed ≡ false)
        × (s2.calls ≡ clear ∷ snapshot (some p) ∷ s.calls)
        × (s2.requests ≡ e.trading_pair ∷ s.requests)
  unfolding process_diff process_buffered drain
  spanning_lost s p old first news d e v f k h u t l =
      let last = final_of s.last_diff_update_id old in
      let dropped : skip p.update_id s.last_diff_update_id s.diffs ≡ (last, first ∷ news) =
        rw h (skip-append p.update_id s.last_diff_update_id old first news u t) in
      let after : process_diff lost (process_snapshot s p) d
          ≡ drain lost (first ∷ news ++ d ∷ []) (applied s p last (first ∷ news ++ d ∷ [])) =
        snapshot_then_diff_drains s p d last (first ∷ news) v f k dropped in
      rw after (rw (drain, process_diff, process_buffered, l) (refl, refl, refl, refl))

  -- The updates of a diff that directly follows a snapshot begin at the latest with the one after it.
  abbrev pub Gapless : List Call → Type 0
  Gapless (diff d ∷ snapshot (some p) ∷ cs) = d.first_update_id ≤ next_id p.update_id
  Gapless _ = Unit

  -- If no buffered diff spans the update after the snapshot, and the next diff only continues the
  -- last buffered one, the book gets this diff right after the snapshot, however many updates lie
  -- between the two: the gap goes unnoticed.
  pub gap_after_snapshot :
      (s : Sync) (p : Snapshot) (d : Diff)
      → Inv lost s
      → s.snapshot_request_in_flight ≡ true
      → (p.trading_pair == k_count) ≡ false
      → Unspanned p.update_id s.diffs
      → lost (final_of s.last_diff_update_id s.diffs) d ≡ false
      → next_id p.update_id < d.first_update_id
      → let s' = process_diff lost (process_snapshot s p) d in
        (s'.snapshot_was_processed ≡ true) × ¬ Gapless s'.calls
  gap_after_snapshot s p d v f k u e gap =
      let last = final_of s.last_diff_update_id s.diffs in
      let dropped = skip_all p.update_id s.last_diff_update_id s.diffs u in
      let r = snapshot_then_diff s p d last [] v f k dropped (e, tt) in
      (r.processed, rw r.got (omega arith))

  process_buffered_emptied :
      (s : Sync) (d : Diff)
      → Inv lost s
      → (process_buffered lost s d).snapshot_was_processed ≡ true
      → (process_buffered lost s d).diffs ≡ []
  unfolding process_buffered
  process_buffered_emptied s d v h = ground (arith, drain_empties s.diffs (apply_snapshot s))

  process_diff_emptied :
      (s : Sync) (d : Diff)
      → Inv lost s
      → (s.snapshot_was_processed ≡ true → s.diffs ≡ [])
      → (process_diff lost s d).snapshot_was_processed ≡ true
      → (process_diff lost s d).diffs ≡ []
  unfolding process_diff
  process_diff_emptied s d v h =
      let s' = record s { diffs = s.diffs ++ d ∷ [] } in
      if-intro (λ (r : Sync). r.snapshot_was_processed ≡ true → r.diffs ≡ [])
        (s.snapshot_was_processed && not (lost s.last_diff_update_id d)) (λ on _. h (ground arith))
        (λ off. process_buffered_emptied s' d (push-Inv lost s (s.diffs ++ d ∷ []) v))

  process_snapshot_unprocessed :
      (s : Sync) (p : Snapshot)
      → Inv lost s
      → s.snapshot_request_in_flight ≡ true
      → (process_snapshot s p).snapshot_was_processed ≡ false
  unfolding process_snapshot
  process_snapshot_unprocessed s p v f = ground arith

  -- While the book follows the exchange nothing is buffered.
  Reach-emptied :
      {n : ℕ} {s : Sync} → Reach lost n s → s.snapshot_was_processed ≡ true → s.diffs ≡ []
  Reach-emptied start h = refl
  Reach-emptied (on_diff {s = s} r d) h =
      process_diff_emptied s d (Reach-Inv lost r) (Reach-emptied r) h
  Reach-emptied (on_snapshot {s = s} r p f) h =
      let off = process_snapshot_unprocessed s p (Reach-Inv lost r) f in absurd (cc)

  quiet :
      (s : Sync)
      → Inv lost s
      → s.snapshot_was_processed ≡ true
      → (s.need_make_snapshot ≡ false)
        × (s.snapshot_request_in_flight ≡ false)
        × (s.need_process_current_snapshot ≡ false)
  quiet s v on = ground arith

  lose :
      (s : Sync) (d : Diff)
      → Inv lost s
      → s.snapshot_was_processed ≡ true
      → s.diffs ≡ []
      → lost s.last_diff_update_id d ≡ true
      → process_diff lost s d ≡ record s {
        diff_packet_lost = true;
        need_make_snapshot = true;
        snapshot_was_processed = false;
        diffs = [];
      }
  unfolding process_diff process_buffered drain
  lose s d v on e h = let q = quiet s v on in rw (e, h, q.0, q.1, q.2, on) (rw h)

  -- In every history: if a diff arrives from which packets before it were lost, while the book
  -- follows the exchange, the next diff, whatever it is, clears the book (which got nothing in
  -- between), requests one snapshot for its pair, and is the one diff in the buffer.
  pub loss_restarts :
      {n : ℕ} {s : Sync} (d e : Diff)
      → Reach lost n s
      → s.snapshot_was_processed ≡ true
      → lost s.last_diff_update_id d ≡ true
      → let s' = process_diff lost (process_diff lost s d) e in
        (s'.calls ≡ clear ∷ s.calls)
        × (s'.requests ≡ e.trading_pair ∷ s.requests)
        × (s'.snapshot_request_in_flight ≡ true)
        × (s'.snapshot_was_processed ≡ false)
        × (s'.diffs ≡ e ∷ [])
  unfolding process_diff process_buffered
  loss_restarts {s = s} d e r on h =
      let v = Reach-Inv lost r in
      let q = quiet s v on in
      rw (lose s d v on (Reach-emptied r on) h, q.1) (refl, refl, refl, refl, refl)
