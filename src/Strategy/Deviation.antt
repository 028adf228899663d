-- ===== src/Strategy/Deviation.antt =====
-- aos/strategies/deviation_and_mutual_info/c_strategy.h: the strategy that signals an asset's pairs
-- where the asset deviates from its average and the pair shares information with it. The orders are
-- not placed; the last action of each list logs what to buy or sell, which is recorded here, the first
-- signal first. `quot` and `ratio` are the divisions of the average and of the deviation, and `weigh` is
-- the term of the mutual information. Where that is computed from a window of equal values, the source
-- divides 0 by 0 and converts the quotient to an integer, which is undefined behaviour: the world of the
-- actions remembers it, and the analysis then has no result.
pub mod Levels
pub mod Signals
use cryptobot_algo.Base.{
  ℕ, ◌==◌, Bool, true, false, ◌&&◌, Option, none, some, List, [], ◌∷◌, ◌++◌, if◌then◌else◌, then_do,
}
use cryptobot_algo.Base.Int.{ℤ, pos, ltb_ℤ}
use cryptobot_algo.Base.Maps.{Map, insert, get_or, empty}
use cryptobot_algo.Trackers.Window
use cryptobot_algo.Trackers.Window.{Storage, storage_deviation_ratio, new_storage}
use cryptobot_algo.Triplets.{MarketTripletManager, has_pair, get_pairs}
use cryptobot_algo.Statistics.Information.{owned_window_mutual_information}
use cryptobot_algo.Strategy.{
  Action, CoreStrategy, new_core_strategy, add_actions_to_buy, add_actions_to_sell, analyze_to_buy,
  analyze_to_sell,
}

pub record Config : Type 0 where
  pub window_size : ℕ
  pub number_bins : ℕ
  pub allowed_asset_hash : ℕ
  pub deviation_ratio_threshold : ℤ
  pub mi_threshold : ℤ

-- The fields of the class but the core strategy, and the signals.
pub record DeviationStrategy : Type 0 where
  pub sliding_window : Storage
  pub market_triplet_manager : MarketTripletManager
  pub config : Config
  pub bid_price : Map ℤ
  pub ask_price : Map ℤ
  pub to_buy : List (ℕ × ℤ)
  pub to_sell : List (ℕ × ℤ)

-- The constructor, over the manager of the pairs that it refers to.
abbrev pub new_deviation_strategy : MarketTripletManager → Config → DeviationStrategy
new_deviation_strategy manager config = record {
  sliding_window = new_storage config.window_size;
  market_triplet_manager = manager;
  config = config;
  bid_price = empty;
  ask_price = empty;
  to_buy = [];
  to_sell = [];
}

-- What the actions capture: the strategy, and whether something undefined was computed.
pub record World : Type 0 where
  pub strategy : DeviationStrategy
  pub undefined : Bool

abbrev pub Core : Type 0
Core = CoreStrategy ℤ World

-- The result of an analysis, where all of it is defined.
abbrev pub defined : Option World → Option DeviationStrategy
defined none = none
defined (some w) = if w.undefined then none else some w.strategy

abbrev pub new_world : DeviationStrategy → World
new_world strategy = record { strategy = strategy; undefined = false }

-- The first action: only one asset is analysed.
unfoldable pub allow : Action ℤ World
allow hash value (queue, w) =
    (if hash == w.strategy.config.allowed_asset_hash then queue ++ hash ∷ [] else queue, w)

abbrev pub push_to_buy : ℕ → ℤ → DeviationStrategy → DeviationStrategy
push_to_buy hash value s = record s { to_buy = s.to_buy ++ (hash, value) ∷ [] }

abbrev pub push_to_sell : ℕ → ℤ → DeviationStrategy → DeviationStrategy
push_to_sell hash value s = record s { to_sell = s.to_sell ++ (hash, value) ∷ [] }

-- The last actions: a signal.
unfoldable pub signal_buy : Action ℤ World
signal_buy hash value (queue, w) =
    (queue, record w { strategy = push_to_buy hash value w.strategy })

unfoldable pub signal_sell : Action ℤ World
signal_sell hash value (queue, w) =
    (queue, record w { strategy = push_to_sell hash value w.strategy })

module _ (quot : ℤ → ℕ → ℤ) (ratio : ℤ → ℤ → ℤ) (weigh : ℕ → ℕ → ℕ → ℕ → ℤ) where
  -- The test of the second action; the status of the ratio is not read.
  abbrev pub deviates : ℕ → ℤ → DeviationStrategy → Bool
  deviates hash value w =
      ltb_ℤ w.config.deviation_ratio_threshold
        (get_or (pos 0) (storage_deviation_ratio quot ratio hash value w.sliding_window))

  unfoldable pub deviate : Action ℤ World
  deviate hash value (queue, w) =
      (if deviates hash value w.strategy then queue ++ hash ∷ [] else queue, w)

  -- The mutual information of the windows of two assets; see `window_mutual_information`.
  abbrev pub mutual_information : ℕ → ℕ → DeviationStrategy → Option (Option ℤ)
  mutual_information hash pair w =
      owned_window_mutual_information weigh w.sliding_window hash pair w.config.number_bins

  -- The test of the third action, on an answer that is defined.
  abbrev pub above : ℤ → Option ℤ → Bool
  above threshold (some mi) = ltb_ℤ threshold mi
  above threshold none = false

  unfoldable pub informs : ℕ → ℕ → DeviationStrategy → Option Bool
  informs hash pair w =
      then_do (mutual_information hash pair w) (λ answer. some (above w.config.mi_threshold answer))

  -- One round of the loop over the pairs.
  unfoldable pub consider : Option Bool → ℕ → List ℕ × World → List ℕ × World
  consider none pair (queue, w) = (queue, record w { undefined = true })
  consider (some b) pair (queue, w) = (if b then queue ++ pair ∷ [] else queue, w)

  unfoldable pub push_informed : ℕ → List ℕ → List ℕ × World → List ℕ × World
  unfolding informs consider
  push_informed hash [] (queue, w) = (queue, w)
  push_informed hash (pair ∷ pairs) (queue, w) =
      push_informed hash pairs (consider (informs hash pair w.strategy) pair (queue, w))

  unfoldable pub inform : Action ℤ World
  unfolding push_informed
  inform hash value (queue, w) =
      if has_pair hash w.strategy.market_triplet_manager
      then push_informed hash (get_pairs hash w.strategy.market_triplet_manager) (queue, w)
      else (queue, w)

  unfoldable pub init_buy_actions : Core → Core
  unfolding add_actions_to_buy
  init_buy_actions core =
      add_actions_to_buy signal_buy
        (add_actions_to_buy inform (add_actions_to_buy deviate (add_actions_to_buy allow core)))

  unfoldable pub init_sell_actions : Core → Core
  unfolding add_actions_to_sell
  init_sell_actions core =
      add_actions_to_sell signal_sell
        (add_actions_to_sell inform (add_actions_to_sell deviate (add_actions_to_sell allow core)))

  unfoldable pub init : Core
  unfolding init_buy_actions init_sell_actions
  init = init_sell_actions (init_buy_actions new_core_strategy)

  unfoldable pub deviation_analyze_to_buy : ℕ → ℤ → DeviationStrategy → Option DeviationStrategy
  unfolding init analyze_to_buy
  deviation_analyze_to_buy asset value w = defined (analyze_to_buy init asset value (new_world w))

  unfoldable pub deviation_analyze_to_sell : ℕ → ℤ → DeviationStrategy → Option DeviationStrategy
  unfolding init analyze_to_sell
  deviation_analyze_to_sell asset value w = defined (analyze_to_sell init asset value (new_world w))

unfoldable pub deviation_add_data : ℕ → ℤ → DeviationStrategy → DeviationStrategy
deviation_add_data asset value w = record w {
  sliding_window = Window.add_data asset value w.sliding_window;
}

unfoldable pub set_bid_price : ℕ → ℤ → DeviationStrategy → DeviationStrategy
set_bid_price asset value w = record w { bid_price = insert asset value w.bid_price }

unfoldable pub set_ask_price : ℕ → ℤ → DeviationStrategy → DeviationStrategy
set_ask_price asset value w = record w { ask_price = insert asset value w.ask_price }

-- aos/strategy_engine/strategy_engine.h: the task that `AddData` posts to the strand, which runs the
-- tasks one after another.
module _ (quot : ℤ → ℕ → ℤ) (ratio : ℤ → ℤ → ℤ) (weigh : ℕ → ℕ → ℕ → ℕ → ℤ) where
  unfoldable pub engine_add_data : ℕ → ℤ → DeviationStrategy → Option DeviationStrategy
  unfolding deviation_analyze_to_buy deviation_analyze_to_sell deviation_add_data
  engine_add_data asset value w =
      then_do (deviation_analyze_to_buy quot ratio weigh asset value w) (λ w1.
        then_do (deviation_analyze_to_sell quot ratio weigh asset value w1)
          (λ w2. some (deviation_add_data asset value w2)))

-- The tasks that set a price.
abbrev pub engine_set_bid_price : ℕ → ℤ → DeviationStrategy → DeviationStrategy
engine_set_bid_price = set_bid_price

abbrev pub engine_set_ask_price : ℕ → ℤ → DeviationStrategy → DeviationStrategy
engine_set_ask_price = set_ask_price
