-- ===== src/Strategy/Deviation/Levels.antt =====
-- The last actions on a level of assets, and worlds in which something undefined was computed.
use cryptobot_algo.Base.{
  ℕ, ◌≡◌, refl, sym, ap, ◌∙◌, Bool, true, false, ◌||◌, Option, none, some, List, [], ◌∷◌, ◌++◌, map,
  append_assoc, append-nil,
}
use cryptobot_algo.Base.Int.{ℤ}
use cryptobot_algo.Strategy.Rounds.{level}
use cryptobot_algo.Strategy.Deviation.{
  DeviationStrategy, World, push_to_buy, push_to_sell, signal_buy, signal_sell,
}

-- A signal for each asset of a list.
abbrev pub signals : List ℕ → ℤ → List (ℕ × ℤ)
signals assets value = map (λ (a : ℕ). (a, value)) assets

abbrev pub with_buy : List (ℕ × ℤ) → DeviationStrategy → DeviationStrategy
with_buy new s = record s { to_buy = s.to_buy ++ new }

abbrev pub with_sell : List (ℕ × ℤ) → DeviationStrategy → DeviationStrategy
with_sell new s = record s { to_sell = s.to_sell ++ new }

pub level-signal_buy :
    (assets : List ℕ) (value : ℤ) (w : World)
    → level signal_buy value assets w
      ≡ ([], record w { strategy = with_buy (signals assets value) w.strategy })
unfolding level signal_buy
level-signal_buy [] value w =
    ap (λ (l : List (ℕ × ℤ)). ([], record w { strategy = record w.strategy { to_buy = l } }))
      (sym (append-nil w.strategy.to_buy))
level-signal_buy (a ∷ assets) value w =
    level-signal_buy assets value (record w { strategy = push_to_buy a value w.strategy })
    ∙ ap (λ (l : List (ℕ × ℤ)). ([], record w { strategy = record w.strategy { to_buy = l } }))
        (append_assoc w.strategy.to_buy ((a, value) ∷ []) (signals assets value))

pub level-signal_sell :
    (assets : List ℕ) (value : ℤ) (w : World)
    → level signal_sell value assets w
      ≡ ([], record w { strategy = with_sell (signals assets value) w.strategy })
unfolding level signal_sell
level-signal_sell [] value w =
    ap (λ (l : List (ℕ × ℤ)). ([], record w { strategy = record w.strategy { to_sell = l } }))
      (sym (append-nil w.strategy.to_sell))
level-signal_sell (a ∷ assets) value w =
    level-signal_sell assets value (record w { strategy = push_to_sell a value w.strategy })
    ∙ ap (λ (l : List (ℕ × ℤ)). ([], record w { strategy = record w.strategy { to_sell = l } }))
        (append_assoc w.strategy.to_sell ((a, value) ∷ []) (signals assets value))

pub nothing_pushed :
    (queue : List ℕ) (w : World) → ◌≡◌ {A = List ℕ × World} (queue, w) (queue ++ [], w)
nothing_pushed queue w = ap (λ (l : List ℕ). (l, w)) (sym (append-nil queue))

-- The world once something undefined was computed, or not.
abbrev pub taint : Bool → World → World
taint b w = record w { undefined = w.undefined || b }

pub or-false : (b : Bool) → (b || false) ≡ b
or-false true = refl
or-false false = refl

pub or-true : (b : Bool) → (b || true) ≡ true
or-true true = refl
or-true false = refl

pub taint-false : (w : World) → taint false w ≡ w
taint-false w = ap (λ (b : Bool). record w { undefined = b }) (or-false w.undefined)

-- A pair before the others, if its test succeeds.
abbrev pub keep_informed : Option Bool → ℕ → List ℕ → List ℕ
keep_informed (some true) pair pairs = pair ∷ pairs
keep_informed _ pair pairs = pairs

abbrev pub is_none_or : Option Bool → Bool → Bool
is_none_or none b = true
is_none_or (some _) b = b
