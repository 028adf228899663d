-- ===== src/Positions/Unrealized.antt =====
-- aos/pnl/unrealized_storage/pnl_unrealized_storage.h, with `NetModePolicy`, and
-- aos/pnl/realized_storage/pnl_realized_storage.h.
use cryptobot_algo.Base.{
  ℕ, ◌≡◌, false, Option, none, some, arith, ◌==◌, if◌then◌else◌, Option-cases, inl, inr,
}
use cryptobot_algo.Base.Int.{ℤ, ◌+ℤ◌, ◌-ℤ◌, ◌*ℤ◌}
use cryptobot_algo.Base.Maps.{Map, empty, insert, get_or, contains, insert_self}
use cryptobot_algo.Positions.Calculators.{
  zero_ℤ, calculate_realized, calculate_unrealized, close_price, calculate_unrealized-close_price,
}

pub record PositionInfo : Type 0 where
  pub avg_price : ℤ
  pub net_qty : ℤ

pub record Bbo : Type 0 where
  pub best_bid : ℤ
  pub best_ask : ℤ

pub record UnrealizedStorage : Type 0 where
  pub position_info : Map PositionInfo
  pub bbo : Map Bbo
  pub unrealized_pnl : Map ℤ

abbrev pub new_unrealized : UnrealizedStorage
new_unrealized = record { position_info = empty; bbo = empty; unrealized_pnl = empty }

-- The profit of a position at a quote.
abbrev pub profit_at : PositionInfo → Bbo → ℤ
profit_at p b = calculate_unrealized p.avg_price p.net_qty b.best_bid b.best_ask

unfoldable pub update_position : ℕ → PositionInfo → UnrealizedStorage → UnrealizedStorage
update_position key p s =
    let s' = record s { position_info = insert key p s.position_info } in
    elim (s.bbo key) [
      | none ↦ s'
      | some b ↦ record s' { unrealized_pnl = insert key (profit_at p b) s.unrealized_pnl }
    ]

-- `try_emplace` keeps a value that is there.
abbrev pub try_emplace {ℓ} : {V : Type ℓ} → ℕ → V → Map V → Map V
try_emplace key v m = if contains (m key) then m else insert key v m

unfoldable pub update_bbo : ℕ → Bbo → UnrealizedStorage → UnrealizedStorage
update_bbo key b s =
    let s' = record s { bbo = try_emplace key b s.bbo } in
    elim (s.position_info key) [
      | none ↦ s'
      | some p ↦ record s' { unrealized_pnl = insert key (profit_at p b) s.unrealized_pnl }
    ]

abbrev pub get_unrealized_pnl : ℕ → UnrealizedStorage → Option ℤ
get_unrealized_pnl key s = s.unrealized_pnl key

-- `realized_pnl_[key] += pnl`.
abbrev pub add_realized : ℕ → ℤ → Map ℤ → Map ℤ
add_realized key pnl m = insert key (get_or zero_ℤ (m key) +ℤ pnl) m

-- `FixProfit`: the profit, and the new map.
abbrev pub fix_profit : ℕ → ℤ → ℤ → ℤ → ℤ → Map ℤ → ℤ × Map ℤ
fix_profit key avg_price net_qty price qty m =
    let pnl = calculate_realized avg_price net_qty price qty in (pnl, add_realized key pnl m)

-- After `UpdateBBO` of a key with a position its unrealized profit is what closing the position at
-- this quote earns beyond the average price; the profits of the other keys stay.
pub update_bbo-close_price :
    (key other : ℕ) (p : PositionInfo) (b : Bbo) (s : UnrealizedStorage)
    → s.position_info key ≡ some p
    → let s' = update_bbo key b s in
      (get_unrealized_pnl key s'
        ≡ some ((close_price p.net_qty b.best_bid b.best_ask -ℤ p.avg_price) *ℤ p.net_qty))
      × ((key == other) ≡ false → get_unrealized_pnl other s' ≡ get_unrealized_pnl other s)
unfolding update_bbo
update_bbo-close_price key other p b s e =
    ground (arith, e, calculate_unrealized-close_price p.avg_price p.net_qty b.best_bid b.best_ask)

update_bbo_bbo :
    (key : ℕ) (b : Bbo) (s : UnrealizedStorage) → (update_bbo key b s).bbo ≡ try_emplace key b s.bbo
unfolding update_bbo
update_bbo_bbo key b s = elim (Option-cases (s.position_info key)) [
  | inl f ↦ ground (arith, f)
  | inr (p, f) ↦ ground (arith, f)
]

update_position_profit :
    (key : ℕ) (p : PositionInfo) (b : Bbo) (s : UnrealizedStorage)
    → s.bbo key ≡ some b
    → get_unrealized_pnl key (update_position key p s) ≡ some (profit_at p b)
unfolding update_position
update_position_profit key p b s e = ground (arith, e)

-- A second quote of a key does not replace the first one: the next `UpdatePosition` takes the profit
-- at the first quote, whatever the second was.
pub stale_quote :
    (key : ℕ) (p : PositionInfo) (b b' : Bbo) (s : UnrealizedStorage)
    → s.bbo key ≡ none
    → get_unrealized_pnl key (update_position key p (update_bbo key b' (update_bbo key b s)))
      ≡ some (profit_at p b)
stale_quote key p b b' s e =
    let once : (update_bbo key b s).bbo key ≡ some b =
      rw (update_bbo_bbo key b s, e) (insert_self key b s.bbo) in
    let twice : (update_bbo key b' (update_bbo key b s)).bbo key ≡ some b =
      rw (update_bbo_bbo key b' (update_bbo key b s), once) once in
    update_position_profit key p b (update_bbo key b' (update_bbo key b s)) twice

-- The pooled storage has the same handlers.
abbrev pub pooled_update_position : ℕ → PositionInfo → UnrealizedStorage → UnrealizedStorage
pooled_update_position = update_position

abbrev pub pooled_update_bbo : ℕ → Bbo → UnrealizedStorage → UnrealizedStorage
pooled_update_bbo = update_bbo

-- `GetRealizedPnl`.
abbrev pub get_realized_pnl : ℕ → Map ℤ → Option ℤ
get_realized_pnl key m = m key
