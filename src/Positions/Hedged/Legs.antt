-- ===== src/Positions/Hedged/Legs.antt =====
-- The profit over both legs, and what a removal does to a leg.
use cryptobot_algo.Base.{ℕ, ◌≡◌, refl, ap, ◌∙◌, false, some, arith}
use cryptobot_algo.Base.Int.{ℤ, ◌+ℤ◌, ◌-ℤ◌, ◌*ℤ◌, ltb_ℤ, ◌<ℤ◌, -ℤ_parts, int_laws}
use cryptobot_algo.Positions.Calculators.{
  zero_ℤ, min_ℤ, size_ℤ, closed_qty, close_price, calculate_unrealized-close_price,
}
use cryptobot_algo.Positions.Unrealized.{PositionInfo, Bbo, profit_at, fix_profit}
use cryptobot_algo.Positions.Hedged.{
  HedgedStorage, hedged_update_bbo, hedged_unrealized_pnl, HedgedAccount, set_leg, closed_leg,
  open_rest, hedged_remove, hedged_pooled_remove,
}

-- What closing a leg earns beyond its average price.
abbrev pub earned : PositionInfo → Bbo → ℤ
earned p b = (close_price p.net_qty b.best_bid b.best_ask -ℤ p.avg_price) *ℤ p.net_qty

-- After `UpdateBBO` of a key with a long and a short leg its unrealized profit is the sum of what
-- closing each of them at this quote earns beyond its average price, whatever it was before.
pub hedged_update_bbo-earned :
    (key : ℕ) (l k : PositionInfo) (b : Bbo) (s : HedgedStorage)
    → s.long_info key ≡ some l
    → s.short_info key ≡ some k
    → hedged_unrealized_pnl key (hedged_update_bbo key b s) ≡ some (earned l b +ℤ earned k b)
unfolding hedged_update_bbo
hedged_update_bbo-earned key l k b s e f =
    let zero_first : zero_ℤ +ℤ profit_at l b ≡ profit_at l b = omega int_laws in
    let left = calculate_unrealized-close_price l.avg_price l.net_qty b.best_bid b.best_ask in
    let right = calculate_unrealized-close_price k.avg_price k.net_qty b.best_bid b.best_ask in
    rw (← left, ← right) (ground (arith, e, f, zero_first))

-- The plain and the pooled class do the same.
pub hedged_remove-hedged_pooled_remove :
    (quot : ℤ → ℤ → ℤ) (key : ℕ) (price qty : ℤ) (a : HedgedAccount)
    → hedged_pooled_remove quot key price qty a ≡ hedged_remove quot key price qty a
unfolding hedged_remove hedged_pooled_remove
hedged_remove-hedged_pooled_remove quot key price qty a = refl

not_positive :
    (net qty : ℤ) → net <ℤ zero_ℤ → qty <ℤ zero_ℤ → ltb_ℤ zero_ℤ (net -ℤ closed_qty net qty) ≡ false
not_positive net qty h k =
    let least = min_ℤ (size_ℤ net) (size_ℤ qty) in
    let change = -ℤ_parts net (closed_qty net qty) in ground (arith, change, -ℤ_parts zero_ℤ least)

-- The other leg is opened: the first one stays.
open_rest-leg :
    (quot : ℤ → ℤ → ℤ) (key : ℕ) (price remaining : ℤ) (a : HedgedAccount)
    → (open_rest quot key price remaining false a).short_leg ≡ a.short_leg
open_rest-leg quot key price remaining a = ground arith

-- Whatever is removed from a short leg, at any price, its average price becomes 0, also where a part
-- of the leg stays open.
pub hedged_remove-short_leg :
    (quot : ℤ → ℤ → ℤ) (key : ℕ) (price qty : ℤ) (a : HedgedAccount)
    → a.short_leg.net_qty <ℤ zero_ℤ
    → qty <ℤ zero_ℤ
    → let r = hedged_remove quot key price qty a in
      (r.short_leg.avg_price ≡ zero_ℤ)
      × (r.short_leg.net_qty ≡ a.short_leg.net_qty -ℤ closed_qty a.short_leg.net_qty qty)
unfolding hedged_remove
hedged_remove-short_leg quot key price qty a h k =
    let short : ltb_ℤ zero_ℤ qty ≡ false = ground (arith, k) in
    let old = a.short_leg in
    let (realized, fixed) = fix_profit key old.avg_price old.net_qty price qty a.realized_pnl in
    let remaining = qty -ℤ closed_qty old.net_qty qty in
    let a' =
      set_leg key false (closed_leg quot realized qty old) (record a { realized_pnl = fixed }) in
    let kept = open_rest-leg quot key price remaining a' in
    rw short (
      ap (λ (x : PositionInfo). x.avg_price) kept ∙ rw (not_positive old.net_qty qty h k) refl,
      ap (λ (x : PositionInfo). x.net_qty) kept,
    )
