-- ===== src/Binance/Sync/Buffer.antt =====
-- Runs of buffered diffs, and what the loop that drops diffs leaves of them.
use cryptobot_algo.Base.{ℕ, ◌≡◌, refl, true, false, List, [], ◌∷◌, ◌++◌, All}
use cryptobot_algo.Binance.Events.{Diff}
use cryptobot_algo.Binance.Sync.{Call, diff, skip, spans}

-- The last update of a run of diffs that begins after the update `last`.
abbrev pub final_of : ℕ → List Diff → ℕ
final_of last [] = last
final_of last (d ∷ ds) = final_of d.final_update_id ds

-- The calls after the delivery of a run of diffs.
abbrev pub push_all : List Diff → List Call → List Call
push_all [] cs = cs
push_all (d ∷ ds) cs = push_all ds (diff d ∷ cs)

abbrev pub Unspanned : ℕ → List Diff → Type 0
Unspanned snap = All (λ d. spans snap d ≡ false)

pub final_of-append :
    (last : ℕ) (ds : List Diff) (d : Diff) → final_of last (ds ++ d ∷ []) ≡ d.final_update_id
final_of-append last [] d = refl
final_of-append last (e ∷ ds) d = final_of-append e.final_update_id ds d

pub skip_all :
    (snap last : ℕ) (ds : List Diff)
    → Unspanned snap ds
    → skip snap last ds ≡ (final_of last ds, [])
unfolding skip
skip_all snap last [] h = refl
skip_all snap last (d ∷ ds) (h, hs) = rw h (skip_all snap d.final_update_id ds hs)

pub skip-append :
    (snap last : ℕ) (old : List Diff) (d : Diff) (ds : List Diff)
    → Unspanned snap old
    → spans snap d ≡ true
    → skip snap last (old ++ d ∷ ds) ≡ (final_of last old, d ∷ ds)
unfolding skip
skip-append snap last [] d ds h t = rw t
skip-append snap last (x ∷ old) d ds (h, hs) t =
    rw h (skip-append snap x.final_update_id old d ds hs t)
