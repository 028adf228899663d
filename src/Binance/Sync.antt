-- ===== src/Binance/Sync.antt =====
-- aoe/binance/order_book_sync/order_book_sync.h: the classes `OrderBookSync` of the spot and of the
-- futures market. They differ in `CheckPacketLost` only, which is the parameter `lost` here. The
-- handlers run on one strand, so each is one step. What they do to other objects is recorded, newest
-- first: the calls of the order book, and the coroutines spawned to request a snapshot.
pub mod Invariant
pub mod Buffer
pub mod Recovery
use cryptobot_algo.Base.{
  ℕ, ◌+◌, ◌%◌, ◌^◌, Bool, true, false, not, ◌&&◌, Option, none, some, List, [], ◌∷◌, ◌++◌, ◌==◌,
  leb, if◌then◌else◌,
}
use cryptobot_algo.Binance.Events.{Snapshot, Diff, k_count}

-- A call of the order book: `Clear`, or `OnEvent` of a snapshot (a pointer, which may be null) or of
-- a diff.
pub data Call : Type 0 where
  clear : Call
  snapshot : Option Snapshot → Call
  diff : Diff → Call

-- The fields of the class, and the two records of what was called.
pub record Sync : Type 0 where
  pub last_diff_update_id : ℕ
  pub last_snapshot_update_id : ℕ
  pub need_make_snapshot : Bool
  pub need_process_current_snapshot : Bool
  pub diff_packet_lost : Bool
  pub snapshot_request_in_flight : Bool
  pub snapshot_was_processed : Bool
  pub last_snapshot : Option Snapshot
  pub diffs : List Diff
  pub calls : List Call
  pub requests : List ℕ

-- The member initialisers.
abbrev pub initial : Sync
initial = record {
  last_diff_update_id = 0;
  last_snapshot_update_id = 0;
  need_make_snapshot = true;
  need_process_current_snapshot = false;
  diff_packet_lost = true;
  snapshot_request_in_flight = false;
  snapshot_was_processed = false;
  last_snapshot = none;
  diffs = [];
  calls = [];
  requests = [];
}

-- `x + 1` on `uint64_t`.
abbrev pub next_id : ℕ → ℕ
next_id x = (x + 1) % 2 ^ 64

-- `CheckPacketLost` of the spot market, and of the futures market.
abbrev pub spot_check_packet_lost : ℕ → Diff → Bool
spot_check_packet_lost last d = not (d.first_update_id == next_id last)

abbrev pub futures_check_packet_lost : ℕ → Diff → Bool
futures_check_packet_lost last d = not (d.previous_update_id == last)

-- The diff spans the update that follows the snapshot.
abbrev pub spans : ℕ → Diff → Bool
spans snap d = leb d.first_update_id (next_id snap) && leb (next_id snap) d.final_update_id

-- The loop that drops buffered diffs, with the new `last_diff_update_id_` and the diffs left.
unfoldable pub skip : ℕ → ℕ → List Diff → ℕ × List Diff
skip snap last [] = (last, [])
skip snap last (d ∷ ds) = if spans snap d then (last, d ∷ ds) else skip snap d.final_update_id ds

unfoldable pub process_snapshot : Sync → Snapshot → Sync
process_snapshot s p =
    let (last, rest) = skip p.update_id s.last_diff_update_id s.diffs in
    let s' = record s {
      last_snapshot_update_id = p.update_id;
      last_snapshot = some p;
      snapshot_request_in_flight = false;
      last_diff_update_id = last;
      diffs = rest;
    } in
    if p.trading_pair == k_count
    then record s' { need_process_current_snapshot = false; need_make_snapshot = true }
    else record s' { need_process_current_snapshot = true }

-- `order_book_.OnEvent(diff)` with `SetLastDiffUpdateId`.
abbrev pub deliver : Sync → Diff → Sync
deliver s d = record s { last_diff_update_id = d.final_update_id; calls = diff d ∷ s.calls }

-- The request of a snapshot: the book is cleared and `RequestNewSnapshot` spawned.
abbrev pub request : Sync → Diff → Sync
request s d = record s {
  calls = clear ∷ s.calls;
  snapshot_request_in_flight = true;
  requests = d.trading_pair ∷ s.requests;
  need_make_snapshot = false;
}

abbrev pub apply_snapshot : Sync → Sync
apply_snapshot s =
    if s.need_process_current_snapshot
    then record s {
      need_process_current_snapshot = false;
      calls = snapshot s.last_snapshot ∷ s.calls;
      snapshot_was_processed = true;
    }
    else s

module _ (lost : ℕ → Diff → Bool) where
  -- The loop over the buffer: it is emptied either way, by delivery or by the second loop.
  unfoldable pub drain : List Diff → Sync → Sync
  drain [] s = record s { diffs = [] }
  drain (d ∷ ds) s =
      if lost s.last_diff_update_id d
      then record s {
        diff_packet_lost = true;
        need_make_snapshot = true;
        snapshot_was_processed = false;
        diffs = [];
      }
      else drain ds (record (deliver s d) { diff_packet_lost = false })

  -- From `diffs_.push(ptr)` on; the diff is already at the end of the buffer.
  unfoldable pub process_buffered : Sync → Diff → Sync
  process_buffered s d =
      if s.need_make_snapshot && not s.snapshot_request_in_flight
      then request s d
      else if s.snapshot_request_in_flight
      then s
      else drain s.diffs (apply_snapshot s)

  unfoldable pub process_diff : Sync → Diff → Sync
  process_diff s d =
      if s.snapshot_was_processed && not (lost s.last_diff_update_id d)
      then deliver s d
      else process_buffered (record s { diffs = s.diffs ++ d ∷ [] }) d

-- The handlers of the two markets.
abbrev pub spot_process_diff : Sync → Diff → Sync
spot_process_diff = process_diff spot_check_packet_lost

abbrev pub futures_process_diff : Sync → Diff → Sync
futures_process_diff = process_diff futures_check_packet_lost

-- `ProcessSnapshot` is the same text in both classes.
abbrev pub futures_process_snapshot : Sync → Snapshot → Sync
futures_process_snapshot = process_snapshot
