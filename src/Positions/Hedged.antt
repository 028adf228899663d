-- ===== src/Positions/Hedged.antt =====
-- Hedged positions, with a long and a short leg: `HedgedUnRealizedPnlStorageDefault` with
-- `HedgeModePolicy` of aos/pnl/unrealized_storage/pnl_unrealized_storage.h, and
-- `HedgedPositionStrategyDefault` and `HedgedPositionStrategy` of
-- aos/position_strategy/position_strategy.h with the position of aos/position/position.h.
pub mod Legs
use cryptobot_algo.Base.{ℕ, Bool, true, false, not, ◌||◌, Option, none, some, if◌then◌else◌}
use cryptobot_algo.Base.Int.{ℤ, ltb_ℤ, eqb_ℤ, ◌+ℤ◌, ◌-ℤ◌, ◌*ℤ◌}
use cryptobot_algo.Base.Maps.{Map, insert, get_or, contains}
use cryptobot_algo.Positions.Calculators.{zero_ℤ, closed_qty, calculate_realized}
use cryptobot_algo.Positions.Unrealized.{
  PositionInfo, Bbo, profit_at, try_emplace, add_realized, fix_profit,
}

pub record HedgedStorage : Type 0 where
  pub long_info : Map PositionInfo
  pub short_info : Map PositionInfo
  pub bbo : Map Bbo
  pub unrealized_pnl : Map ℤ

-- `unrealized_pnl_[key] += …`, for a leg that is there.
abbrev pub add_leg : ℕ → Option PositionInfo → Bbo → Map ℤ → Map ℤ
add_leg key none b m = m
add_leg key (some p) b m = insert key (get_or zero_ℤ (m key) +ℤ profit_at p b) m

-- The end of both handlers: the sum over the legs starts from 0.
abbrev pub refresh : ℕ → Bbo → HedgedStorage → HedgedStorage
refresh key b s =
    if contains (s.long_info key) || contains (s.short_info key)
    then record s {
      unrealized_pnl =
          add_leg key (s.short_info key) b
            (add_leg key (s.long_info key) b (insert key zero_ℤ s.unrealized_pnl));
    }
    else s

-- `net_qty >= 0` goes to the long leg.
abbrev pub put_info : ℕ → PositionInfo → HedgedStorage → HedgedStorage
put_info key p s =
    if not (ltb_ℤ p.net_qty zero_ℤ)
    then record s { long_info = insert key p s.long_info }
    else record s { short_info = insert key p s.short_info }

unfoldable pub hedged_update_position : ℕ → PositionInfo → HedgedStorage → HedgedStorage
hedged_update_position key p s =
    let s' = put_info key p s in elim (s.bbo key) [ none ↦ s' | some b ↦ refresh key b s' ]

unfoldable pub hedged_update_bbo : ℕ → Bbo → HedgedStorage → HedgedStorage
hedged_update_bbo key b s = refresh key b (record s { bbo = try_emplace key b s.bbo })

abbrev pub hedged_unrealized_pnl : ℕ → HedgedStorage → Option ℤ
hedged_unrealized_pnl key s = s.unrealized_pnl key

-- `net_qty_` and `avg_price_`: the elements 0 are the short leg, the elements 1 the long one.
pub record HedgedAccount : Type 0 where
  pub short_leg : PositionInfo
  pub long_leg : PositionInfo
  pub realized_pnl : Map ℤ
  pub unrealized : HedgedStorage

-- An index is `true` for 1.
abbrev pub leg : Bool → HedgedAccount → PositionInfo
leg idx a = if idx then a.long_leg else a.short_leg

-- A leg is written and told to the storage.
abbrev pub set_leg : ℕ → Bool → PositionInfo → HedgedAccount → HedgedAccount
set_leg key idx p a =
    let a' = if idx then record a { long_leg = p } else record a { short_leg = p } in
    record a' { unrealized = hedged_update_position key p a.unrealized }

module _ (quot : ℤ → ℤ → ℤ) where
  unfoldable pub hedged_add : ℕ → ℤ → ℤ → HedgedAccount → HedgedAccount
  hedged_add key price qty a =
      let idx = ltb_ℤ zero_ℤ qty in
      let old = leg idx a in
      let total_value = old.net_qty *ℤ old.avg_price +ℤ qty *ℤ price in
      let net = old.net_qty +ℤ qty in
      set_leg key idx (record { avg_price = quot total_value net; net_qty = net }) a

  -- The leg that a removal closes.
  abbrev pub closed_leg : ℤ → ℤ → PositionInfo → PositionInfo
  closed_leg realized qty old =
      let net = old.net_qty -ℤ closed_qty old.net_qty qty in
      record {
        avg_price =
            if ltb_ℤ zero_ℤ net then quot (old.avg_price *ℤ net -ℤ realized) net else zero_ℤ;
        net_qty = net;
      }

  -- What is left of the quantity opens the other leg.
  abbrev pub open_rest : ℕ → ℤ → ℤ → Bool → HedgedAccount → HedgedAccount
  open_rest key price remaining idx a =
      let other = leg (not idx) a in
      let net = other.net_qty +ℤ remaining in
      let total_value = other.avg_price *ℤ net +ℤ price *ℤ remaining in
      if eqb_ℤ remaining zero_ℤ
      then (if idx
          then record a { short_leg = record { avg_price = other.avg_price; net_qty = net } }
          else record a { long_leg = record { avg_price = other.avg_price; net_qty = net } })
      else set_leg key (not idx) (record { avg_price = quot total_value net; net_qty = net }) a

  unfoldable pub hedged_remove : ℕ → ℤ → ℤ → HedgedAccount → HedgedAccount
  hedged_remove key price qty a =
      let idx = ltb_ℤ zero_ℤ qty in
      let old = leg idx a in
      let (realized, fixed) = fix_profit key old.avg_price old.net_qty price qty a.realized_pnl in
      let remaining = qty -ℤ closed_qty old.net_qty qty in
      open_rest key price remaining idx
        (set_leg key idx (closed_leg realized qty old) (record a { realized_pnl = fixed }))

  -- The pooled class calculates the profit itself and adds it.
  unfoldable pub hedged_pooled_remove : ℕ → ℤ → ℤ → HedgedAccount → HedgedAccount
  hedged_pooled_remove key price qty a =
      let idx = ltb_ℤ zero_ℤ qty in
      let old = leg idx a in
      let realized = calculate_realized old.avg_price old.net_qty price qty in
      let a' = record a { realized_pnl = add_realized key realized a.realized_pnl } in
      let remaining = qty -ℤ closed_qty old.net_qty qty in
      open_rest key price remaining idx (set_leg key idx (closed_leg realized qty old) a')

-- The pooled storage has the same handlers.
abbrev pub pooled_hedged_update_position : ℕ → PositionInfo → HedgedStorage → HedgedStorage
pooled_hedged_update_position = hedged_update_position

abbrev pub pooled_hedged_update_bbo : ℕ → Bbo → HedgedStorage → HedgedStorage
pooled_hedged_update_bbo = hedged_update_bbo

abbrev pub pooled_hedged_add : (ℤ → ℤ → ℤ) → ℕ → ℤ → ℤ → HedgedAccount → HedgedAccount
pooled_hedged_add = hedged_add

-- `GetPosition` and `GetAveragePrice` of the whole position.
abbrev pub hedged_position : HedgedAccount → ℤ
hedged_position a = a.short_leg.net_qty +ℤ a.long_leg.net_qty

abbrev pub hedged_average_price : (ℤ → ℤ → ℤ) → HedgedAccount → ℤ
hedged_average_price quot a =
    let total_value =
      a.short_leg.net_qty *ℤ a.short_leg.avg_price +ℤ a.long_leg.net_qty *ℤ a.long_leg.avg_price in
    if eqb_ℤ (hedged_position a) zero_ℤ then zero_ℤ else quot total_value (hedged_position a)
