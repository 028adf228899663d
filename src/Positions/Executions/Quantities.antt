-- ===== src/Positions/Executions/Quantities.antt =====
-- What an execution does to the quantity of a position.
use cryptobot_algo.Base.{
  ℕ, ◌≡◌, refl, ◌∙◌, sym, Bool, true, false, Option, none, some, if◌then◌else◌, ◌==◌, Bool-cases,
  inl, inr, arith,
}
use cryptobot_algo.Base.Int.{ℤ, ◌+ℤ◌, ◌-ℤ◌, eqb_ℤ, eqb_ℤ-eq, int_laws}
use cryptobot_algo.Base.Maps.{contains}
use cryptobot_algo.Positions.Calculators.{zero_ℤ, neg_ℤ}
use cryptobot_algo.Positions.Unrealized.{PositionInfo}
use cryptobot_algo.Positions.Net.{Trade, added, removed}
use cryptobot_algo.Positions.Storage.{PositionStorage, get_position, change_position}
use cryptobot_algo.Positions.Storage.Own.{next_position, change_position-next}
use cryptobot_algo.Positions.Executions.{
  ExecutionKind, unknown, spot_sell, spot_buy, linear_sell, linear_buy, ExecutionEvent, accept_of,
  accept_execution,
}

-- The quantity of a key, 0 where it has no position.
abbrev pub held : Option PositionInfo → ℤ
held none = zero_ℤ
held (some p) = p.net_qty

-- What was bought, or sold with the sign of a sale.
abbrev pub bought : ExecutionKind → ℤ → ℤ
bought unknown qty = zero_ℤ
bought spot_sell qty = neg_ℤ qty
bought spot_buy qty = qty
bought linear_sell qty = neg_ℤ qty
bought linear_buy qty = qty

-- The executions that are lost where there is no position.
abbrev pub needs_position : ExecutionKind → Bool
needs_position spot_sell = true
needs_position linear_buy = true
needs_position _ = false

add_zero : (a : ℤ) → a ≡ a +ℤ zero_ℤ
add_zero a = omega int_laws

minus : (a b : ℤ) → (a -ℤ b ≡ a +ℤ neg_ℤ b) × (a -ℤ neg_ℤ b ≡ a +ℤ b)
minus a b = (omega int_laws, omega int_laws)

module _ (quot : ℤ → ℤ → ℤ) where
  held-added :
      (price qty : ℤ) (o : Option PositionInfo)
      → held (next_position quot (added price qty) o) ≡ held o +ℤ qty
  unfolding next_position
  held-added price qty none = refl
  held-added price qty (some p) = refl

  held-removed :
      (price qty : ℤ) (o : Option PositionInfo)
      → contains o ≡ true
      → held (next_position quot (removed price qty) o) ≡ held o -ℤ qty
  unfolding next_position
  held-removed price qty none h = absurd (cc)
  held-removed price qty (some p) h = elim (Bool-cases (eqb_ℤ (p.net_qty -ℤ qty) zero_ℤ)) [
    | inl closed ↦ rw closed (sym (eqb_ℤ-eq (p.net_qty -ℤ qty) zero_ℤ closed))
    | inr left ↦ rw left refl
  ]

  held-change :
      (k key : ℕ) (t : Trade) (s : PositionStorage) (d : ℤ)
      → held (next_position quot t (get_position k s)) ≡ held (get_position k s) +ℤ d
      → held (get_position key (change_position quot k t s))
        ≡ held (get_position key s) +ℤ (if k == key then d else zero_ℤ)
  held-change k key t s d own = elim (Bool-cases (k == key)) [
    | inl same ↦
        let e : k ≡ key = ground arith in rw (change_position-next quot k key t s, same, ← e) own
    | inr other ↦
        rw (change_position-next quot k key t s, other) (add_zero (held (get_position key s)))
  ]

  -- The change of a removal that may find no position.
  held-reduced :
      (price qty d : ℤ) (o : Option PositionInfo)
      → ((a : ℤ) → a -ℤ qty ≡ a +ℤ d)
      → held (next_position quot (removed price qty) o)
        ≡ held o +ℤ (if contains o then d else zero_ℤ)
  unfolding next_position
  held-reduced price qty d none h = add_zero zero_ℤ
  held-reduced price qty d (some p) h = held-removed price qty (some p) refl ∙ h p.net_qty

  held-unchanged :
      (k key : ℕ) (s : PositionStorage)
      → held (get_position key s)
        ≡ held (get_position key s) +ℤ (if k == key then zero_ℤ else zero_ℤ)
  held-unchanged k key s = elim (Bool-cases (k == key)) [
    | inl same ↦ rw same (add_zero (held (get_position key s)))
    | inr other ↦ rw other (add_zero (held (get_position key s)))
  ]

  accept_of-held :
      (kind : ExecutionKind) (e : ExecutionEvent) (key : ℕ) (s : PositionStorage)
      → let d =
          if needs_position kind
          then if contains (get_position e.key s) then bought kind e.exec_qty else zero_ℤ
          else bought kind e.exec_qty in
        held (get_position key (accept_of quot kind e s))
        ≡ held (get_position key s) +ℤ (if e.key == key then d else zero_ℤ)
  unfolding accept_of change_position
  accept_of-held unknown e key s = held-unchanged e.key key s
  accept_of-held spot_sell e key s =
      held-change e.key key (removed e.exec_price e.exec_qty) s
        (if contains (get_position e.key s) then neg_ℤ e.exec_qty else zero_ℤ)
        (held-reduced e.exec_price e.exec_qty (neg_ℤ e.exec_qty) (get_position e.key s)
          (λ a. (minus a e.exec_qty).0))
  accept_of-held spot_buy e key s =
      held-change e.key key (added e.exec_price e.exec_qty) s e.exec_qty
        (held-added e.exec_price e.exec_qty (get_position e.key s))
  accept_of-held linear_sell e key s =
      held-change e.key key (added e.exec_price (neg_ℤ e.exec_qty)) s (neg_ℤ e.exec_qty)
        (held-added e.exec_price (neg_ℤ e.exec_qty) (get_position e.key s))
  accept_of-held linear_buy e key s =
      held-change e.key key (removed e.exec_price (neg_ℤ e.exec_qty)) s
        (if contains (get_position e.key s) then e.exec_qty else zero_ℤ)
        (held-reduced e.exec_price (neg_ℤ e.exec_qty) e.exec_qty (get_position e.key s)
          (λ a. (minus a e.exec_qty).1))

  -- An execution changes the quantity of no key but its own, and that by what it bought (a sale
  -- counts with the minus sign), or by nothing where a spot sale or a linear purchase finds no
  -- position.
  pub accept_execution-held :
      (e : ExecutionEvent) (key : ℕ) (s : PositionStorage)
      → let d =
          if needs_position e.kind
          then if contains (get_position e.key s) then bought e.kind e.exec_qty else zero_ℤ
          else bought e.kind e.exec_qty in
        held (get_position key (accept_execution quot e s))
        ≡ held (get_position key s) +ℤ (if e.key == key then d else zero_ℤ)
  unfolding accept_execution
  accept_execution-held e key s = accept_of-held e.kind e key s
