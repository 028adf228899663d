-- ===== src/Tests/Profits.antt =====
-- A long position of three units, of which one is sold.
use cryptobot_algo.Base.{◌/◌, ◌≡◌, refl, List, [], ◌∷◌, if◌then◌else◌}
use cryptobot_algo.Base.Int.{ℤ, pos, pos_part, ltb_ℤ, ◌+ℤ◌, ◌-ℤ◌, ◌*ℤ◌}
use cryptobot_algo.Positions.Calculators.{zero_ℤ, neg_ℤ, size_ℤ}
use cryptobot_algo.Positions.Unrealized.{PositionInfo}
use cryptobot_algo.Positions.Net.{
  Account, new_account, add, remove, Trade, added, removed, trade, run,
}
use cryptobot_algo.Positions.Net.Cost.{run-invested}

-- Division that rounds towards 0.
abbrev divide : ℤ → ℤ → ℤ
divide a b =
    let q = pos (pos_part (size_ℤ a) / pos_part (size_ℤ b)) in
    if ltb_ℤ (a *ℤ b) zero_ℤ then neg_ℤ q else q

abbrev position : PositionInfo
position = record { avg_price = pos 100; net_qty = pos 3 }

abbrev trades : List Trade
trades = added (pos 100) (pos 3) ∷ removed (pos 120) (pos 1) ∷ []

abbrev account : Account
account = run divide 5 trades new_account

run-invested_example : (account.avg_price *ℤ account.net_qty ≡ pos 180) × (account.net_qty ≡ pos 2)
unfolding trade add remove ◌+ℤ◌ ◌-ℤ◌ ◌*ℤ◌
run-invested_example =
    run-invested divide 5 trades new_account
      ((λ e. absurd (cc)), (λ _. refl), (tt, (λ _. refl), tt))
