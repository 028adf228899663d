-- ===== src/Tests/Syncs.antt =====
-- Histories of the synchroniser of the Binance spot market.
use cryptobot_algo.Base.{ℕ, ◌+◌, ◌≡◌, refl, true, false, some, [], ◌∷◌, length, arith}
use cryptobot_algo.Binance.Events.{Snapshot, Diff}
use cryptobot_algo.Binance.Sync.{
  Sync, initial, skip, process_snapshot, drain, process_buffered, process_diff, snapshot, diff,
  clear, spot_check_packet_lost,
}
use cryptobot_algo.Binance.Sync.Invariant.{
  InOrder, Reach, start, on_diff, on_snapshot, Reach-InOrder, Reach-requests, Reach-Inv,
  outstanding,
}
use cryptobot_algo.Binance.Sync.Recovery.{
  resync, gap_after_snapshot, loss_restarts, spanning_lost, Gapless,
}

abbrev diff_of : ℕ → ℕ → Diff
diff_of a b = record {
  first_update_id = a;
  final_update_id = b;
  previous_update_id = 0;
  trading_pair = 2;
  bids = [];
  asks = [];
}

abbrev snapshot_of : ℕ → Snapshot
snapshot_of a = record { update_id = a; trading_pair = 2; bids = []; asks = [] }

-- The first diff makes the synchroniser request a snapshot; the second is buffered.
abbrev handle : Sync → Diff → Sync
handle = process_diff spot_check_packet_lost

abbrev one : Sync
one = handle initial (diff_of 11 12)

abbrev two : Sync
two = handle one (diff_of 13 15)

abbrev followed : Sync
followed = handle (process_snapshot two (snapshot_of 12)) (diff_of 16 16)

one_waits : one.snapshot_request_in_flight ≡ true
unfolding process_diff process_buffered
one_waits = refl

two_waits : two.snapshot_request_in_flight ≡ true
unfolding process_diff process_buffered
two_waits = refl

two-Reach : Reach spot_check_packet_lost 0 two
two-Reach = on_diff (on_diff start (diff_of 11 12)) (diff_of 13 15)

followed-Reach : Reach spot_check_packet_lost 1 followed
followed-Reach = on_diff (on_snapshot two-Reach (snapshot_of 12) two_waits) (diff_of 16 16)

Reach-InOrder_example : InOrder spot_check_packet_lost followed.calls
Reach-InOrder_example = Reach-InOrder spot_check_packet_lost followed-Reach

Reach-requests_example : length two.requests ≡ 0 + outstanding spot_check_packet_lost two
Reach-requests_example = Reach-requests spot_check_packet_lost two-Reach

resync_example :
    (followed.calls
      ≡ diff (diff_of 16 16) ∷ diff (diff_of 13 15) ∷ snapshot (some (snapshot_of 12)) ∷ two.calls)
    × (followed.snapshot_was_processed ≡ true)
    × (followed.diffs ≡ [])
    × (followed.last_diff_update_id ≡ 16)
unfolding process_diff process_buffered
resync_example =
    resync spot_check_packet_lost two (snapshot_of 12) (diff_of 11 12 ∷ []) (diff_of 13 15) []
      (diff_of 16 16) (Reach-Inv spot_check_packet_lost two-Reach) refl refl refl (refl, tt) refl
      (refl, (refl, tt))

-- The updates 6 to 10 are missing.
abbrev with_gap : Sync
with_gap = handle (process_snapshot one (snapshot_of 5)) (diff_of 13 13)

gap_after_snapshot_example :
    (with_gap.snapshot_was_processed ≡ true) × ¬ Gapless spot_check_packet_lost with_gap.calls
unfolding process_diff process_buffered
gap_after_snapshot_example =
    gap_after_snapshot spot_check_packet_lost one (snapshot_of 5) (diff_of 13 13)
      (Reach-Inv spot_check_packet_lost (on_diff start (diff_of 11 12))) refl refl (refl, tt) refl
      (omega arith)

abbrev restarted : Sync
restarted = handle (handle followed (diff_of 18 19)) (diff_of 20 20)

loss_restarts_example :
    (restarted.calls ≡ clear ∷ followed.calls)
    × (restarted.requests ≡ 2 ∷ followed.requests)
    × (restarted.snapshot_request_in_flight ≡ true)
    × (restarted.snapshot_was_processed ≡ false)
    × (restarted.diffs ≡ diff_of 20 20 ∷ [])
unfolding process_diff process_buffered process_snapshot skip drain
loss_restarts_example =
    loss_restarts spot_check_packet_lost (diff_of 18 19) (diff_of 20 20) followed-Reach refl refl

-- The first diff of all spans the update after the snapshot, but is checked against the update 0.
abbrev refused : Sync
refused = handle (process_snapshot one (snapshot_of 10)) (diff_of 13 13)

spanning_lost_example :
    (refused.calls ≡ snapshot (some (snapshot_of 10)) ∷ one.calls)
    × (refused.snapshot_was_processed ≡ false)
    × ((handle refused (diff_of 14 14)).calls
        ≡ clear ∷ snapshot (some (snapshot_of 10)) ∷ one.calls)
    × ((handle refused (diff_of 14 14)).requests ≡ 2 ∷ one.requests)
unfolding process_diff process_buffered
spanning_lost_example =
    spanning_lost spot_check_packet_lost one (snapshot_of 10) [] (diff_of 11 12) [] (diff_of 13 13)
      (diff_of 14 14) (Reach-Inv spot_check_packet_lost (on_diff start (diff_of 11 12))) refl refl
      refl tt refl refl
