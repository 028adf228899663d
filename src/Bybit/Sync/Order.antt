-- ===== src/Bybit/Sync/Order.antt =====
-- The order of the calls that the Bybit synchroniser makes of the order book.
use cryptobot_algo.Base.{
  ℕ, ◌≡◌, ◌≢◌, refl, ap, ◌∙◌, true, false, List, [], ◌∷◌, ◌++◌, map, arith, All,
}
use cryptobot_algo.Bybit.Sync.{
  Event, Call, clear, snapshot, diff, Sync, initial, next_id, process_snapshot, process_diff, Input,
  got_snapshot, got_diff, step, run,
}

-- The event that the newest call applied, if the book is not cleared or empty.
abbrev pub StandsAt : ℕ → List Call → Type 0
StandsAt id [] = ⊥
StandsAt id (clear ∷ cs) = ⊥
StandsAt id (snapshot p ∷ cs) = p.update_id ≡ id
StandsAt id (diff d ∷ cs) = d.update_id ≡ id

-- A diff directly continues the call before it.
abbrev pub Follows : Call → List Call → Type 0
Follows (diff d) [] = ⊥
Follows (diff d) (clear ∷ cs) = ⊥
Follows (diff d) (snapshot p ∷ cs) = d.update_id ≡ next_id p.update_id
Follows (diff d) (diff e ∷ cs) = d.update_id ≡ next_id e.update_id
Follows _ cs = Unit

abbrev pub InOrder : List Call → Type 0
InOrder [] = Unit
InOrder (c ∷ cs) = Follows c cs × InOrder cs

-- Snapshots have positive ids, below 2^64.
pub record Inv (s : Sync) : Type 0 where
  pub ordered : InOrder s.calls
  pub live : s.received_snapshot_success ≡ true → StandsAt s.current_diff_update_id s.calls
  pub dead : s.received_snapshot_success ≡ false → s.current_snapshot_update_id ≡ 0

abbrev pub IsNumbered : Input → Type 0
IsNumbered (got_snapshot p) = p.update_id ≢ 0
IsNumbered (got_diff d) = Unit

process_snapshot-Inv : (s : Sync) (p : Event) → p.update_id ≢ 0 → Inv s → Inv (process_snapshot s p)
unfolding process_snapshot
process_snapshot-Inv s p h v = ground arith

Follows-StandsAt :
    (id : ℕ) (d : Event) (cs : List Call)
    → StandsAt id cs
    → d.update_id ≡ next_id id
    → Follows (diff d) cs
Follows-StandsAt id d [] h e = h
Follows-StandsAt id d (clear ∷ cs) h e = h
Follows-StandsAt id d (snapshot p ∷ cs) h e = rw h e
Follows-StandsAt id d (diff x ∷ cs) h e = rw h e

process_diff-Inv : (s : Sync) (d : Event) → Inv s → Inv (process_diff s d)
unfolding process_diff
process_diff-Inv s d v = ground (arith, Follows-StandsAt s.current_diff_update_id d s.calls)

pub step-Inv : (s : Sync) (i : Input) → IsNumbered i → Inv s → Inv (step s i)
unfolding step
step-Inv s (got_snapshot p) h v = process_snapshot-Inv s p h v
step-Inv s (got_diff d) h v = process_diff-Inv s d v

run-Inv : (s : Sync) (is : List Input) → All IsNumbered is → Inv s → Inv (run s is)
unfolding run
run-Inv s [] h v = v
run-Inv s (i ∷ is) h v = run-Inv (step s i) is h.1 (step-Inv s i h.0 v)

pub initial-Inv : (diff_id : ℕ) → Inv (initial diff_id 0)
initial-Inv diff_id = ground arith

-- If the snapshot id starts at 0 and no snapshot has the id 0, then in every history the book gets a
-- diff only right after the event (snapshot or diff) that it continues, and never after a clear.
pub run-InOrder :
    (diff_id : ℕ) (is : List Input) → All IsNumbered is → InOrder (run (initial diff_id 0) is).calls
run-InOrder diff_id is h = (run-Inv (initial diff_id 0) is h (initial-Inv diff_id)).ordered

run-append : (s : Sync) (is js : List Input) → run s (is ++ js) ≡ run (run s is) js
unfolding run
run-append s [] js = refl
run-append s (i ∷ is) js = run-append (step s i) is js

-- Without a snapshot diffs change nothing.
run_diffs_idle :
    (s : Sync) (ds : List Event) → s.received_snapshot_success ≡ false → run s (map got_diff ds) ≡ s
unfolding run step process_diff
run_diffs_idle s [] h = refl
run_diffs_idle s (d ∷ ds) h =
    let stay : process_diff s d ≡ s = ground arith in
    ap (λ t. run t (map got_diff ds)) stay ∙ run_diffs_idle s ds h

-- What a lost packet leaves.
abbrev dropped : Sync → Sync
dropped s = record {
  current_diff_update_id = 0;
  current_snapshot_update_id = 0;
  received_snapshot_success = false;
  calls = clear ∷ s.calls;
}

lose :
    (s : Sync) (d : Event)
    → s.received_snapshot_success ≡ true
    → d.update_id ≢ next_id s.current_diff_update_id
    → process_diff s d ≡ dropped s
unfolding process_diff
lose s d on gap = ground arith

resume :
    (s : Sync) (p : Event)
    → p.update_id ≢ 0
    → p.update_id ≢ 1
    → let s' = process_snapshot (dropped s) p in
      (s'.calls ≡ snapshot p ∷ clear ∷ s.calls)
      × (s'.current_diff_update_id ≡ p.update_id)
      × (s'.received_snapshot_success ≡ true)
unfolding process_snapshot
resume s p h0 h1 = ground arith

run_restart :
    (s : Sync) (d : Event) (ds : List Event) (p : Event)
    → s.received_snapshot_success ≡ true
    → d.update_id ≢ next_id s.current_diff_update_id
    → run s (got_diff d ∷ map got_diff ds ++ got_snapshot p ∷ []) ≡ process_snapshot (dropped s) p
unfolding run step
run_restart s d ds p on gap =
    let rest = map got_diff ds ++ got_snapshot p ∷ [] in
    ap (λ t. run t rest) (lose s d on gap)
    ∙ run-append (dropped s) (map got_diff ds) (got_snapshot p ∷ [])
    ∙ ap (λ t. run t (got_snapshot p ∷ [])) (run_diffs_idle (dropped s) ds refl)

-- A diff that does not continue the book clears it; whatever diffs follow are dropped, until a
-- snapshot (of an id other than 0) is applied, from which the next diff has to continue.
pub loss_resumes :
    (s : Sync) (d : Event) (ds : List Event) (p : Event)
    → s.received_snapshot_success ≡ true
    → d.update_id ≢ next_id s.current_diff_update_id
    → p.update_id ≢ 0
    → p.update_id ≢ 1
    → let s' = run s (got_diff d ∷ map got_diff ds ++ got_snapshot p ∷ []) in
      (s'.calls ≡ snapshot p ∷ clear ∷ s.calls)
      × (s'.current_diff_update_id ≡ p.update_id)
      × (s'.received_snapshot_success ≡ true)
loss_resumes s d ds p on gap h0 h1 = rw (run_restart s d ds p on gap) (resume s p h0 h1)

-- If the id in memory happens to be that of the first snapshot, the snapshot is not applied, and a
-- diff that continues the id in memory reaches a book that has no snapshot.
pub uninitialised_id :
    (diff_id : ℕ) (p d : Event)
    → d.update_id ≡ next_id diff_id
    → (run (initial diff_id p.update_id) (got_snapshot p ∷ got_diff d ∷ [])).calls ≡ diff d ∷ []
unfolding run step process_snapshot process_diff
uninitialised_id diff_id p d e = ground arith
