-- ===== src/Positions/Storage/Own.antt =====
-- The position of a key and the changes of this key.
use cryptobot_algo.Base.{
  ℕ, ◌≡◌, refl, ◌∙◌, Option, none, some, List, [], ◌∷◌, if◌then◌else◌, ◌==◌, arith, Bool-cases,
  Option-cases, ==_refl, inl, inr,
}
use cryptobot_algo.Base.Int.{ℤ, ◌+ℤ◌, ◌-ℤ◌, ◌*ℤ◌, eqb_ℤ}
use cryptobot_algo.Base.Maps.{get_or, contains}
use cryptobot_algo.Positions.Calculators.{zero_ℤ}
use cryptobot_algo.Positions.Unrealized.{PositionInfo}
use cryptobot_algo.Positions.Net.{add, remove, Trade, added, removed}
use cryptobot_algo.Positions.Storage.{
  PositionStorage, new_position_storage, flat, get_position, add_position, reduce, remove_position,
  change_position, change_positions,
}

-- The changes of one key in a history.
unfoldable pub own : ℕ → List (ℕ × Trade) → List Trade
own key [] = []
own key ((k, t) ∷ ts) = let rest = own key ts in if k == key then t ∷ rest else rest

module _ (quot : ℤ → ℤ → ℤ) where
  -- A single position by itself: the cost of what is held, over its quantity. A removal from no
  -- position does nothing, and a position of the quantity 0 is given up after a removal.
  unfoldable pub next_position : Trade → Option PositionInfo → Option PositionInfo
  next_position (added price qty) o =
      let p = get_or flat o in
      let net = p.net_qty +ℤ qty in
      some
        (record { avg_price = quot (p.net_qty *ℤ p.avg_price +ℤ qty *ℤ price) net; net_qty = net })
  next_position (removed price qty) none = none
  next_position (removed price qty) (some p) =
      let net = p.net_qty -ℤ qty in
      if eqb_ℤ net zero_ℤ
      then none
      else some (record {
        avg_price = quot (p.avg_price *ℤ (net +ℤ qty) -ℤ price *ℤ qty) net;
        net_qty = net;
      })

  unfoldable pub own_position : List Trade → Option PositionInfo → Option PositionInfo
  unfolding next_position
  own_position [] o = o
  own_position (t ∷ ts) o = own_position ts (next_position t o)

  reduce-next :
      (k key : ℕ) (price qty : ℤ) (p : PositionInfo) (s : PositionStorage)
      → get_position key (reduce quot k price qty p s)
        ≡ (if k == key then next_position (removed price qty) (some p) else get_position key s)
  unfolding get_position reduce remove next_position
  reduce-next k key price qty p s = elim (Bool-cases (eqb_ℤ (p.net_qty -ℤ qty) zero_ℤ)) [
    | inl closed ↦ rw closed (ground arith)
    | inr held ↦ rw held (ground arith)
  ]

  removal_of :
      (k : ℕ) (price qty : ℤ) (p : PositionInfo) (s : PositionStorage)
      → s.storage_position k ≡ some p
      → (remove_position quot k price qty s).1 ≡ reduce quot k price qty p s
  unfolding remove_position
  removal_of k price qty p s e = rw (e, remove_position) refl

  remove_position-next :
      (k key : ℕ) (price qty : ℤ) (s : PositionStorage)
      → get_position key (remove_position quot k price qty s).1 ≡ (
          if k == key
          then next_position (removed price qty) (get_position key s)
          else get_position key s)
  unfolding remove_position
  remove_position-next k key price qty s = elim (Option-cases (s.storage_position k)) [
    | inl e ↦
        unfold get_position next_position in
        rw (e, remove_position)
          (elim (Bool-cases (k == key)) [
            | inl same ↦
                let at_key : s.storage_position key ≡ none =
                  (let x : k ≡ key = ground arith in rw (← x) e) in
                rw (same, at_key) refl
            | inr other ↦ rw other refl
          ])
    | inr (p, e) ↦
        let e' : get_position k s ≡ some p = unfold get_position in e in
        rw (removal_of k price qty p s e) (
          reduce-next k key price qty p s ∙ elim (Bool-cases (k == key)) [
            | inl same ↦ let x : k ≡ key = ground arith in rw (same, ← x) (rw e' refl)
            | inr other ↦ rw other refl
          ])
  ]

  remove_position-contains :
      (key : ℕ) (price qty : ℤ) (s : PositionStorage)
      → (remove_position quot key price qty s).0 ≡ contains (get_position key s)
  unfolding remove_position get_position
  remove_position-contains key price qty s = ground arith

  pub change_position-next :
      (k key : ℕ) (t : Trade) (s : PositionStorage)
      → get_position key (change_position quot k t s)
        ≡ (if k == key then next_position t (get_position key s) else get_position key s)
  unfolding change_position
  change_position-next k key (added price qty) s =
      unfold get_position add_position add next_position in
      elim (Bool-cases (k == key)) [
        | inl same ↦ let e : k ≡ key = ground arith in rw (e, ==_refl key) refl
        | inr other ↦ rw other refl
      ]
  change_position-next k key (removed price qty) s = remove_position-next k key price qty s

  change_positions-own :
      (key : ℕ) (ts : List (ℕ × Trade)) (s : PositionStorage)
      → get_position key (change_positions quot ts s)
        ≡ own_position (own key ts) (get_position key s)
  unfolding change_positions own_position own
  change_positions-own key [] s = refl
  change_positions-own key ((k, t) ∷ ts) s =
      change_positions-own key ts (change_position quot k t s) ∙ elim (Bool-cases (k == key)) [
        | inl same ↦ rw (change_position-next k key t s, same) refl
        | inr other ↦ rw (change_position-next k key t s, other) refl
      ]

  -- After any history of additions and removals of positions of many keys the position of a key is
  -- what its own changes make of a single position, whatever happened to the other keys; and a
  -- removal answers false just where the key has no position.
  pub get_position-own :
      (key : ℕ) (ts : List (ℕ × Trade)) (price qty : ℤ)
      → let s = change_positions quot ts new_position_storage in
        (get_position key s ≡ own_position (own key ts) none)
        × ((remove_position quot key price qty s).0 ≡ contains (own_position (own key ts) none))
  get_position-own key ts price qty =
      let s = change_positions quot ts new_position_storage in
      let e = change_positions-own key ts new_position_storage in
      let e' : get_position key s ≡ own_position (own key ts) none = unfold get_position in e in
      (e', rw (← e') (remove_position-contains key price qty s))
