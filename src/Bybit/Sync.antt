-- ===== src/Bybit/Sync.antt =====
-- aoe/bybit/order_book_sync/order_book_sync.h. Snapshots and diffs are of one event type; the
-- handlers run on one strand, so each is one step. The calls of the order book are recorded, newest
-- first.
pub mod Order
use cryptobot_algo.Base.{
  ℕ, ◌+◌, ◌%◌, ◌^◌, Bool, true, false, not, List, [], ◌∷◌, ◌==◌, if◌then◌else◌,
}
use cryptobot_algo.OrderBook.Level.{RawLevel}

pub record Event : Type 0 where
  pub update_id : ℕ
  pub bids : List RawLevel
  pub asks : List RawLevel

-- A call of the order book: `Clear`, or `OnEvent` of a snapshot or of a diff.
pub data Call : Type 0 where
  clear : Call
  snapshot diff : Event → Call

pub record Sync : Type 0 where
  pub current_diff_update_id : ℕ
  pub current_snapshot_update_id : ℕ
  pub received_snapshot_success : Bool
  pub calls : List Call

-- The constructor leaves the two ids as they are in memory.
abbrev pub initial : ℕ → ℕ → Sync
initial diff_id snapshot_id = record {
  current_diff_update_id = diff_id;
  current_snapshot_update_id = snapshot_id;
  received_snapshot_success = false;
  calls = [];
}

-- `x + 1` on `uint64_t`.
abbrev pub next_id : ℕ → ℕ
next_id x = (x + 1) % 2 ^ 64

unfoldable pub process_snapshot : Sync → Event → Sync
process_snapshot s p =
    if s.current_snapshot_update_id == p.update_id
    then record s { received_snapshot_success = true }
    else record s {
      received_snapshot_success = true;
      current_snapshot_update_id = p.update_id;
      current_diff_update_id = p.update_id;
      calls = snapshot p ∷ (if p.update_id == 1 then clear ∷ s.calls else s.calls);
    }

unfoldable pub process_diff : Sync → Event → Sync
process_diff s d =
    if not s.received_snapshot_success
    then s
    else if not (next_id s.current_diff_update_id == d.update_id)
    then record {
      current_diff_update_id = 0;
      current_snapshot_update_id = 0;
      received_snapshot_success = false;
      calls = clear ∷ s.calls;
    }
    else record s { current_diff_update_id = d.update_id; calls = diff d ∷ s.calls }

-- An event that the parser hands over, and a history of them.
pub data Input : Type 0 where
  got_snapshot got_diff : Event → Input

unfoldable pub step : Sync → Input → Sync
unfolding process_snapshot process_diff
step s (got_snapshot p) = process_snapshot s p
step s (got_diff d) = process_diff s d

unfoldable pub run : Sync → List Input → Sync
run s [] = s
run s (i ∷ is) = run (step s i) is
