-- ===== src/Binance/Sync/Invariant.antt =====
-- The order of the calls that a synchroniser makes of the order book, over every history.
use cryptobot_algo.Base.{
  ℕ, suc, ◌+◌, ◌≡◌, ◌≢◌, inl, inr, refl, Bool, true, false, none, some, List, [], ◌∷◌, ◌++◌, arith,
  length, if◌then◌else◌, Bool-cases, if-intro, not, ◌&&◌,
}
use cryptobot_algo.Binance.Events.{Snapshot, Diff}
use cryptobot_algo.Binance.Sync.{
  Sync, Call, clear, snapshot, diff, initial, process_snapshot, deliver, apply_snapshot, drain,
  process_buffered, process_diff,
}

-- The newest call is `Clear`.
abbrev pub Cleared : List Call → Type 0
Cleared (clear ∷ cs) = Unit
Cleared _ = ⊥

module _ (lost : ℕ → Diff → Bool) where
  -- A call may follow the calls before it: a snapshot, never null, comes right after `Clear`; a diff
  -- comes after the snapshot, or after the diff that it continues without a lost packet.
  abbrev pub Follows : Call → List Call → Type 0
  Follows clear cs = Unit
  Follows (snapshot none) cs = ⊥
  Follows (snapshot (some p)) cs = Cleared cs
  Follows (diff d) [] = ⊥
  Follows (diff d) (clear ∷ cs) = ⊥
  Follows (diff d) (snapshot p ∷ cs) = Unit
  Follows (diff d) (diff e ∷ cs) = lost e.final_update_id d ≡ false

  abbrev pub InOrder : List Call → Type 0
  InOrder [] = Unit
  InOrder (c ∷ cs) = Follows c cs × InOrder cs

  -- The book stands at the update `last`, as far as its last diff says.
  abbrev pub StandsAt : ℕ → List Call → Type 0
  StandsAt last (diff d ∷ cs) = d.final_update_id ≡ last
  StandsAt last (snapshot p ∷ cs) = Unit
  StandsAt last (clear ∷ cs) = ⊥
  StandsAt last [] = ⊥

  -- What each phase of the protocol entails.
  pub record Inv (s : Sync) : Type 0 where
    pub ordered : InOrder s.calls
    pub waiting :
        s.snapshot_request_in_flight ≡ true
        → (s.snapshot_was_processed ≡ false)
          × (s.need_make_snapshot ≡ false)
          × (s.need_process_current_snapshot ≡ false)
          × Cleared s.calls
    pub pending :
        s.need_process_current_snapshot ≡ true
        → (s.snapshot_was_processed ≡ false)
          × (s.need_make_snapshot ≡ false)
          × (s.last_snapshot ≢ none)
          × Cleared s.calls
    pub some_phase :
        s.need_make_snapshot ≡ false
        → s.snapshot_request_in_flight ≡ false
        → s.need_process_current_snapshot ≡ false
        → s.snapshot_was_processed ≡ true
    pub unsynced : s.need_make_snapshot ≡ true → s.snapshot_was_processed ≡ false
    pub synced : s.snapshot_was_processed ≡ true → StandsAt s.last_diff_update_id s.calls

  Follows-StandsAt :
      (last : ℕ) (d : Diff) (cs : List Call)
      → StandsAt last cs
      → lost last d ≡ false
      → Follows (diff d) cs
  Follows-StandsAt last d [] h e = h
  Follows-StandsAt last d (clear ∷ cs) h e = h
  Follows-StandsAt last d (snapshot p ∷ cs) h e = tt
  Follows-StandsAt last d (diff x ∷ cs) h e = rw h e

  initial-Inv : Inv initial
  initial-Inv = ground arith

  process_snapshot-Inv :
      (s : Sync) (p : Snapshot)
      → s.snapshot_request_in_flight ≡ true
      → Inv s
      → Inv (process_snapshot s p)
  unfolding process_snapshot
  process_snapshot-Inv s p f v = ground arith

  deliver-Inv :
      (s : Sync) (d : Diff)
      → s.snapshot_was_processed ≡ true
      → lost s.last_diff_update_id d ≡ false
      → Inv s
      → Inv (deliver s d)
  deliver-Inv s d p e v = ground (arith, Follows-StandsAt s.last_diff_update_id d s.calls)

  -- The book follows the exchange: what holds before and in the loop over the buffer.
  record Following (s : Sync) : Type 0 where
    ordered : InOrder s.calls
    stands : StandsAt s.last_diff_update_id s.calls
    processed : s.snapshot_was_processed ≡ true
    no_request : s.snapshot_request_in_flight ≡ false
    no_snapshot : s.need_process_current_snapshot ≡ false
    no_need : s.need_make_snapshot ≡ false

  deliver-Following :
      (s : Sync) (d : Diff)
      → lost s.last_diff_update_id d ≡ false
      → Following s
      → Following (record (deliver s d) { diff_packet_lost = false })
  deliver-Following s d e v = ground (arith, Follows-StandsAt s.last_diff_update_id d s.calls)

  drain-Inv : (ds : List Diff) (s : Sync) → Following s → Inv (drain lost ds s)
  unfolding drain
  drain-Inv [] s v = ground arith
  drain-Inv (d ∷ ds) s v = elim (Bool-cases (lost s.last_diff_update_id d)) [
    | inl gap ↦ rw gap (ground arith)
    | inr next ↦ rw next (
        drain-Inv ds (record (deliver s d) { diff_packet_lost = false })
          (deliver-Following s d next v))
  ]

  apply_snapshot-Following :
      (s : Sync)
      → s.snapshot_request_in_flight ≡ false
      → s.need_make_snapshot ≡ false
      → Inv s
      → Following (apply_snapshot s)
  apply_snapshot-Following s f m v = ground arith

  process_buffered-Inv : (s : Sync) (d : Diff) → Inv s → Inv (process_buffered lost s d)
  unfolding process_buffered
  process_buffered-Inv s d v =
      ground (arith, drain-Inv s.diffs (apply_snapshot s), apply_snapshot-Following s)

  pub push-Inv : (s : Sync) (ds : List Diff) → Inv s → Inv (record s { diffs = ds })
  push-Inv s ds v = record {
    ordered = v.ordered;
    waiting = v.waiting;
    pending = v.pending;
    some_phase = v.some_phase;
    unsynced = v.unsynced;
    synced = v.synced;
  }

  -- Handling a diff keeps the invariant.
  process_diff-Inv : (s : Sync) (d : Diff) → Inv s → Inv (process_diff lost s d)
  unfolding process_diff
  process_diff-Inv s d v =
      let s' = record s { diffs = s.diffs ++ d ∷ [] } in
      let buffered = process_buffered-Inv s' d (push-Inv s (s.diffs ++ d ∷ []) v) in
      if-intro Inv (s.snapshot_was_processed && not (lost s.last_diff_update_id d))
        (λ on. deliver-Inv s d (ground arith) (ground arith) v) (λ off. buffered)

  -- A history: diffs arrive at any time, a snapshot in answer to a request. The number counts the
  -- snapshots.
  pub data Reach : ℕ → Sync → Type 0 where
    start : Reach 0 initial
    on_diff : {n : ℕ} {s : Sync} → Reach n s → (d : Diff) → Reach n (process_diff lost s d)
    on_snapshot :
        {n : ℕ} {s : Sync}
        → Reach n s
        → (p : Snapshot) → s.snapshot_request_in_flight ≡ true
        → Reach (suc n) (process_snapshot s p)

  pub Reach-Inv : {n : ℕ} {s : Sync} → Reach n s → Inv s
  Reach-Inv start = initial-Inv
  Reach-Inv (on_diff {s = s} r d) = process_diff-Inv s d (Reach-Inv r)
  Reach-Inv (on_snapshot {s = s} r p f) = process_snapshot-Inv s p f (Reach-Inv r)

  -- Over every history in which snapshots arrive in answer to requests only, whatever the diffs are:
  -- the order book gets a snapshot (never null) right after it was cleared, and a diff right after
  -- that snapshot or after a diff which it continues without a lost packet.
  pub Reach-InOrder : {n : ℕ} {s : Sync} → Reach n s → InOrder s.calls
  Reach-InOrder r = (Reach-Inv r).ordered

  -- The requests that have no answer yet: one or none.
  abbrev pub outstanding : Sync → ℕ
  outstanding s = if s.snapshot_request_in_flight then 1 else 0

  drain_requests :
      (ds : List Diff) (s : Sync)
      → ((drain lost ds s).requests ≡ s.requests)
        × ((drain lost ds s).snapshot_request_in_flight ≡ s.snapshot_request_in_flight)
  unfolding drain
  drain_requests [] s = (refl, refl)
  drain_requests (d ∷ ds) s = elim (Bool-cases (lost s.last_diff_update_id d)) [
    | inl gap ↦ rw gap (refl, refl)
    | inr next ↦ rw next (drain_requests ds (record (deliver s d) { diff_packet_lost = false }))
  ]

  process_diff_requests :
      (s : Sync) (d : Diff) (n : ℕ)
      → length s.requests ≡ n + outstanding s
      → length (process_diff lost s d).requests ≡ n + outstanding (process_diff lost s d)
  unfolding process_diff process_buffered
  process_diff_requests s d n h =
      let s' = apply_snapshot (record s { diffs = s.diffs ++ d ∷ [] }) in
      ground (arith, drain_requests (s.diffs ++ d ∷ []) s')

  process_snapshot_requests :
      (s : Sync) (p : Snapshot) (n : ℕ)
      → s.snapshot_request_in_flight ≡ true
      → length s.requests ≡ n + outstanding s
      → length (process_snapshot s p).requests ≡ suc n + outstanding (process_snapshot s p)
  unfolding process_snapshot
  process_snapshot_requests s p n f h = ground arith

  -- Over every such history the snapshots requested are those received, plus one while a request is
  -- in flight: no request is sent before the last was answered.
  pub Reach-requests : {n : ℕ} {s : Sync} → Reach n s → length s.requests ≡ n + outstanding s
  Reach-requests start = refl
  Reach-requests (on_diff {n = n} {s = s} r d) = process_diff_requests s d n (Reach-requests r)
  Reach-requests (on_snapshot {n = n} {s = s} r p f) =
      process_snapshot_requests s p n f (Reach-requests r)
