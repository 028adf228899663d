-- ===== src/Positions/Net/Cost.antt =====
-- What the average price of a net position means.
use cryptobot_algo.Base.{
  ℕ, ◌+◌, ◌≡◌, ◌≢◌, refl, sym, ap, ◌∙◌, false, if◌then◌else◌, List, [], ◌∷◌, arith, Bool-cases, inl,
  inr,
}
use native.Mathlib.Nat.{mul_comm}
use cryptobot_algo.Base.Int.{
  ℤ, pos_part, neg_part, sub_ℕ, ◌+ℤ◌, ◌-ℤ◌, ◌*ℤ◌, eqb_ℤ, eqb_ℤ-eq, int_laws,
}
use cryptobot_algo.Positions.Calculators.{zero_ℤ, neg_ℤ, neg_parts}
use cryptobot_algo.Positions.Net.{
  Account, add, remove, pooled_remove, Trade, added, removed, trade, run,
}

-- The two classes do the same.
pub remove-pooled_remove :
    (quot : ℤ → ℤ → ℤ) (key : ℕ) (price qty : ℤ) (a : Account)
    → pooled_remove quot key price qty a ≡ remove quot key price qty a
unfolding remove pooled_remove
remove-pooled_remove quot key price qty a = refl

sub_ℕ_right : (x c d : ℕ) → sub_ℕ x (c + d) ≡ sub_ℕ x (d + c)
sub_ℕ_right x c d = let swap : c + d ≡ d + c = omega arith in ap (sub_ℕ x) swap

*ℤ_comm : (a b : ℤ) → a *ℤ b ≡ b *ℤ a
unfolding ◌*ℤ◌
*ℤ_comm a b =
    rw
      (
        mul_comm (pos_part a) (pos_part b),
        mul_comm (neg_part a) (neg_part b),
        mul_comm (pos_part a) (neg_part b),
        mul_comm (neg_part a) (pos_part b),
      )
      (sub_ℕ_right _ _ _)

neg-sub_ℕ : (x y : ℕ) → neg_ℤ (sub_ℕ x y) ≡ sub_ℕ y x
unfolding ◌-ℤ◌
neg-sub_ℕ x y = ground arith

*ℤ_neg : (a b : ℤ) → a *ℤ neg_ℤ b ≡ neg_ℤ (a *ℤ b)
unfolding ◌*ℤ◌
*ℤ_neg a b = let n = neg_parts b in rw (n.0, n.1) (sym (neg-sub_ℕ _ _))

*ℤ_zero : (a : ℤ) → a *ℤ zero_ℤ ≡ zero_ℤ
unfolding ◌*ℤ◌
*ℤ_zero a = ground arith

abbrev pub delta : Trade → ℤ
delta (added price qty) = qty
delta (removed price qty) = neg_ℤ qty

abbrev pub price_of : Trade → ℤ
price_of (added price qty) = price
price_of (removed price qty) = price

-- The money put into the position since it was last flat: each trade adds its price times its signed
-- quantity.
abbrev pub invested : ℤ → ℤ → List Trade → ℤ
invested net cost [] = cost
invested net cost (t ∷ ts) =
    let net' = net +ℤ delta t in
    invested net' (if eqb_ℤ net' zero_ℤ then zero_ℤ else cost +ℤ price_of t *ℤ delta t) ts

abbrev pub net_of : ℤ → List Trade → ℤ
net_of net [] = net
net_of net (t ∷ ts) = net_of (net +ℤ delta t) ts

module _ (quot : ℤ → ℤ → ℤ) (key : ℕ) where
  -- The value that the code divides.
  abbrev pub dividend : Trade → Account → ℤ
  dividend (added price qty) a = a.net_qty *ℤ a.avg_price +ℤ qty *ℤ price
  dividend (removed price qty) a = a.avg_price *ℤ (a.net_qty -ℤ qty +ℤ qty) -ℤ price *ℤ qty

  -- An addition must leave a quantity: the code divides by it.
  abbrev pub LeavesQuantity : Trade → ℤ → Type 0
  LeavesQuantity (added price qty) net = net ≢ zero_ℤ
  LeavesQuantity (removed price qty) net = Unit

  -- No division of the history rounds, and none is by 0.
  abbrev pub IsExact : List Trade → Account → Type 0
  IsExact [] a = Unit
  IsExact (t ∷ ts) a =
      let net = a.net_qty +ℤ delta t in
      LeavesQuantity t net
      × (net ≢ zero_ℤ → quot (dividend t a) net *ℤ net ≡ dividend t a)
      × IsExact ts (trade quot key t a)

  net_after : (t : Trade) (a : Account) → (trade quot key t a).net_qty ≡ a.net_qty +ℤ delta t
  unfolding trade add remove
  net_after (added price qty) a = refl
  net_after (removed price qty) a = omega int_laws

  -- What is divided is the money put in so far with that of the trade.
  dividend_lem :
      (t : Trade) (a : Account) → dividend t a ≡ a.avg_price *ℤ a.net_qty +ℤ price_of t *ℤ delta t
  dividend_lem (added price qty) a = rw (*ℤ_comm a.net_qty a.avg_price, *ℤ_comm qty price) refl
  dividend_lem (removed price qty) a =
      let back : a.net_qty -ℤ qty +ℤ qty ≡ a.net_qty = omega int_laws in
      rw (back, *ℤ_neg price qty) (omega int_laws)

  avg_after :
      (t : Trade) (a : Account)
      → eqb_ℤ (a.net_qty +ℤ delta t) zero_ℤ ≡ false
      → (trade quot key t a).avg_price ≡ quot (dividend t a) (a.net_qty +ℤ delta t)
  unfolding trade add remove
  avg_after (added price qty) a h = refl
  avg_after (removed price qty) a h =
      let same : a.net_qty -ℤ qty ≡ a.net_qty +ℤ neg_ℤ qty = omega int_laws in
      let left : eqb_ℤ (a.net_qty -ℤ qty) zero_ℤ ≡ false = ap (λ n. eqb_ℤ n zero_ℤ) same ∙ h in
      rw left (ap (quot (dividend (removed price qty) a)) same)

  value_after :
      (t : Trade) (a : Account)
      → (a.net_qty +ℤ delta t ≢ zero_ℤ
          → quot (dividend t a) (a.net_qty +ℤ delta t) *ℤ (a.net_qty +ℤ delta t) ≡ dividend t a)
      → (trade quot key t a).avg_price *ℤ (trade quot key t a).net_qty ≡ (
          if eqb_ℤ (a.net_qty +ℤ delta t) zero_ℤ
          then zero_ℤ
          else a.avg_price *ℤ a.net_qty +ℤ price_of t *ℤ delta t)
  value_after t a e =
      let net = a.net_qty +ℤ delta t in
      let after = net_after t a in
      elim (Bool-cases (eqb_ℤ net zero_ℤ)) [
        | inl flat ↦
            let nothing : net ≡ zero_ℤ = eqb_ℤ-eq net zero_ℤ flat in
            rw flat (
              ap (λ n. (trade quot key t a).avg_price *ℤ n) (after ∙ nothing)
              ∙ *ℤ_zero (trade quot key t a).avg_price)
        | inr left ↦
            let other : net ≢ zero_ℤ = λ z. let hit = ap (λ n. eqb_ℤ n zero_ℤ) z in absurd (cc) in
            rw left (
              ap (λ n. (trade quot key t a).avg_price *ℤ n) after
              ∙ ap (λ p. p *ℤ net) (avg_after t a left)
              ∙ e other
              ∙ dividend_lem t a)
      ]

  -- If no division rounds and no addition makes the quantity 0, where the code divides by 0, the average
  -- price times the quantity is the money put in since the position was last flat, and the quantity is the sum of the signed quantities. A removal subtracts all that
  -- it brings in, so the average is the price at which the whole position breaks even.
  pub run-invested :
      (ts : List Trade) (a : Account)
      → IsExact ts a
      → let r = run quot key ts a in
        (r.avg_price *ℤ r.net_qty ≡ invested a.net_qty (a.avg_price *ℤ a.net_qty) ts)
        × (r.net_qty ≡ net_of a.net_qty ts)
  unfolding run
  run-invested [] a e = (refl, refl)
  run-invested (t ∷ ts) a (left, e, es) =
      let a' = trade quot key t a in
      let net = a.net_qty +ℤ delta t in
      let cost : ℤ =
        if eqb_ℤ net zero_ℤ then zero_ℤ else a.avg_price *ℤ a.net_qty +ℤ price_of t *ℤ delta t in
      let rest = run-invested ts a' es in
      (
        rest.0
            ∙ ap (λ c. invested a'.net_qty c ts) (value_after t a e)
            ∙ ap (λ n. invested n cost ts) (net_after t a),
        rest.1 ∙ ap (λ n. net_of n ts) (net_after t a),
      )
