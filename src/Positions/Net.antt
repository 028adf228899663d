-- ===== src/Positions/Net.antt =====
-- aos/position_strategy/position_strategy.h: `NetPositionStrategyDefault` and `NetPositionStrategy`,
-- with the position of aos/position/position.h that they change and the two storages.
pub mod Cost
use cryptobot_algo.Base.{ℕ, ◌≡◌, refl, if◌then◌else◌, List, [], ◌∷◌}
use cryptobot_algo.Base.Int.{ℤ, ◌+ℤ◌, ◌-ℤ◌, ◌*ℤ◌, eqb_ℤ}
use cryptobot_algo.Base.Maps.{Map, empty}
use cryptobot_algo.Positions.Calculators.{zero_ℤ, neg_ℤ, calculate_realized}
use cryptobot_algo.Positions.Unrealized.{
  UnrealizedStorage, new_unrealized, update_position, add_realized, fix_profit,
}

pub record Account : Type 0 where
  pub avg_price : ℤ
  pub net_qty : ℤ
  pub realized_pnl : Map ℤ
  pub unrealized : UnrealizedStorage

abbrev pub new_account : Account
new_account = record {
  avg_price = zero_ℤ;
  net_qty = zero_ℤ;
  realized_pnl = empty;
  unrealized = new_unrealized;
}

-- The new average and quantity, told to the storage of unrealized profits.
abbrev pub set_position : ℕ → ℤ → ℤ → Account → Account
set_position key avg net a = record a {
  avg_price = avg;
  net_qty = net;
  unrealized = update_position key (record { avg_price = avg; net_qty = net }) a.unrealized;
}

module _ (quot : ℤ → ℤ → ℤ) where
  -- An addition that makes the quantity 0 divides by 0. The result of the source is then not a number
  -- or infinite; here it is whatever `quot` answers, of which nothing is assumed.
  unfoldable pub add : ℕ → ℤ → ℤ → Account → Account
  add key price qty a =
      let total_value = a.net_qty *ℤ a.avg_price +ℤ qty *ℤ price in
      let net = a.net_qty +ℤ qty in set_position key (quot total_value net) net a

  -- The average price after a removal.
  abbrev pub avg_after_removal : ℤ → ℤ → ℤ → ℤ → ℤ
  avg_after_removal avg net price qty =
      if eqb_ℤ net zero_ℤ then zero_ℤ else quot (avg *ℤ (net +ℤ qty) -ℤ price *ℤ qty) net

  unfoldable pub remove : ℕ → ℤ → ℤ → Account → Account
  remove key price qty a =
      let fixed = fix_profit key a.avg_price a.net_qty price qty a.realized_pnl in
      let net = a.net_qty -ℤ qty in
      set_position key (avg_after_removal a.avg_price net price qty) net
        (record a { realized_pnl = fixed.1 })

  -- The pooled class calculates the profit first, and adds it last.
  unfoldable pub pooled_remove : ℕ → ℤ → ℤ → Account → Account
  pooled_remove key price qty a =
      let realized = calculate_realized a.avg_price a.net_qty price qty in
      let net = a.net_qty -ℤ qty in
      let a' = set_position key (avg_after_removal a.avg_price net price qty) net a in
      record a' { realized_pnl = add_realized key realized a'.realized_pnl }

-- A change of the position: a price and a quantity.
pub data Trade : Type 0 where
  added removed : ℤ → ℤ → Trade

module _ (quot : ℤ → ℤ → ℤ) (key : ℕ) where
  unfoldable pub trade : Trade → Account → Account
  unfolding add remove
  trade (added price qty) a = add quot key price qty a
  trade (removed price qty) a = remove quot key price qty a

  unfoldable pub run : List Trade → Account → Account
  run [] a = a
  run (t ∷ ts) a = run ts (trade t a)

-- `Add` of the pooled class has the same text.
abbrev pub pooled_add : (ℤ → ℤ → ℤ) → ℕ → ℤ → ℤ → Account → Account
pooled_add = add
