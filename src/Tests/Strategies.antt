-- ===== src/Tests/Strategies.antt =====
-- Three connected assets, and a strategy that watches the first.
use cryptobot_algo.Base.{
  ℕ, ◌+◌, ◌/◌, ◌≡◌, refl, true, none, some, if◌then◌else◌, List, [], ◌∷◌, ◌++◌,
}
use cryptobot_algo.Base.Int.{ℤ, pos, negsuc, sub_ℕ, pos_part, neg_part, ◌*ℤ◌}
use cryptobot_algo.Triplets.{new_market_triplet_manager, connect_all, member, get_pairs, has_pair}
use cryptobot_algo.Triplets.Linked.{linked, touched, get_pairs-linked}
use cryptobot_algo.Strategy.{Action, rounds}
use cryptobot_algo.Strategy.Rounds.{levels, level, rounds-levels}
use cryptobot_algo.Strategy.Deviation.{
  Config, DeviationStrategy, new_deviation_strategy, engine_add_data, deviation_add_data,
}
use cryptobot_algo.Strategy.Deviation.Levels.{signals}
use cryptobot_algo.Strategy.Deviation.Signals.{chosen, is_undefined, engine_add_data-chosen}

abbrev links : List (ℕ × ℕ)
links = (1, 2) ∷ (3, 1) ∷ []

get_pairs-linked_example :
    let m = connect_all links new_market_triplet_manager in
    (member 3 (get_pairs 1 m) ≡ true) × (member 1 (get_pairs 3 m) ≡ true) × (has_pair 1 m ≡ true)
unfolding linked touched
get_pairs-linked_example = get_pairs-linked links 1 3

-- An action that pushes the next asset and counts its calls.
abbrev successor : Action ℤ ℕ
successor h value (queue, w) = (queue ++ (h + 1) ∷ [], w + 1)

rounds-levels_example :
    rounds (successor ∷ successor ∷ []) (pos 7) (4 ∷ 9 ∷ [], 0) ≡ some (6 ∷ 11 ∷ [], 4)
unfolding levels level
rounds-levels_example =
    rounds-levels (successor ∷ successor ∷ []) (pos 7) (4 ∷ 9 ∷ []) 0
      ((λ h v q w. refl), ((λ h v q w. refl), tt))

abbrev config : Config
config = record {
  window_size = 2;
  number_bins = 2;
  allowed_asset_hash = 1;
  deviation_ratio_threshold = pos 5;
  mi_threshold = pos 0;
}

abbrev watcher : DeviationStrategy
watcher = new_deviation_strategy (connect_all links new_market_triplet_manager) config

-- Division that rounds towards 0, and a ratio in hundredths.
abbrev divide : ℤ → ℕ → ℤ
divide (pos a) c = pos (a / c)
divide (negsuc a) c = sub_ℕ 0 ((a + 1) / c)

abbrev hundredths : ℤ → ℤ → ℤ
hundredths a b = divide (a *ℤ pos 100) (pos_part b + neg_part b)

-- The count of an entry in place of its term.
abbrev weight : ℕ → ℕ → ℕ → ℕ → ℤ
weight p_xy p_x p_y n = pos p_xy

engine_add_data-chosen_example :
    let new = signals (chosen divide hundredths weight 1 (pos 9) watcher) (pos 9) in
    engine_add_data divide hundredths weight 1 (pos 9) watcher ≡ (
      if is_undefined divide hundredths weight 1 (pos 9) watcher
      then none
      else some (deviation_add_data 1 (pos 9) (record watcher { to_buy = new; to_sell = new })))
engine_add_data-chosen_example = engine_add_data-chosen divide hundredths weight 1 (pos 9) watcher
