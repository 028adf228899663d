-- ===== src/OrderBook/Tops.antt =====
-- aos/order_book/order_book.h: `UpdateTop…` of one side, which bring the caller's copy of the best
-- levels up to date and say whether it changed. The argument `ls` is the iteration over the levels
-- from `begin()` on; the bid and the ask functions are the same but for the field names.
pub mod Exact
use cryptobot_algo.Base.{
  ℕ, zero, suc, ◌+◌, Bool, true, false, not, ◌||◌, List, [], ◌∷◌, ◌==◌, ltb, if◌then◌else◌, length,
}
use cryptobot_algo.OrderBook.Level.{Level}

-- `BestBid` and `BestAsk`.
pub record Quote : Type 0 where
  pub price : ℕ
  pub qty : ℕ

abbrev pub quote : Level → Quote
quote l = record { price = l.price; qty = l.qty }

-- The test of the loops and of `UpdateTopBid`: one of the fields differs.
abbrev pub differs : Quote → Level → Bool
differs q l = not (q.price == l.price) || not (q.qty == l.qty)

pub update_top : List Level → Quote → Bool × Quote
update_top [] q = (false, q)
update_top (l ∷ ls) q = if differs q l then (true, quote l) else (false, q)

pub update_top_price : List Level → ℕ → Bool × ℕ
update_top_price [] p = (false, p)
update_top_price (l ∷ ls) p = if not (p == l.price) then (true, l.price) else (false, p)

-- The caller's array and index, and whether something was written.
pub record Export : Type 0 where
  pub update_exist : Bool
  pub max_valid_lvl : ℕ
  pub quotes : List Quote

abbrev pub keep : Quote → Export → Export
keep q e = record e { quotes = q ∷ e.quotes }

-- The loop at index `i`: the rounds left, the levels from `it` on, the array from `i` on. It never
-- meets the end of the array, whose size is checked before or fixed.
pub export_loop : ℕ → ℕ → List Level → List Quote → Bool → ℕ → Export
export_loop zero i ls qs exist top = record {
  update_exist = exist;
  max_valid_lvl = top;
  quotes = qs;
}
export_loop (suc n) i [] qs exist top = record {
  update_exist = exist;
  max_valid_lvl = top;
  quotes = qs;
}
export_loop (suc n) i (l ∷ ls) [] exist top = record {
  update_exist = exist;
  max_valid_lvl = top;
  quotes = [];
}
export_loop (suc n) i (l ∷ ls) (q ∷ qs) exist top =
    let new = differs q l in
    keep (if new then quote l else q)
      (export_loop n (i + 1) ls qs (exist || new) (if new then i else top))

-- `UpdateTop5Bids` and `UpdateTop5Asks`, on an array of five.
pub update_top5 : List Level → List Quote → ℕ → Export
unfolding export_loop
update_top5 ls qs top = export_loop 5 0 ls qs false top

-- `UpdateTopNBids` and `UpdateTopNAsks`.
pub update_top_n : ℕ → List Level → List Quote → ℕ → Export
unfolding export_loop
update_top_n n ls qs top =
    if ltb (length qs) n
    then record { update_exist = false; max_valid_lvl = top; quotes = qs }
    else export_loop n 0 ls qs false top
