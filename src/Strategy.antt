-- ===== src/Strategy.antt =====
-- aos/strategy/strategy.h, and the same loops in the observable classes of
-- aos/sliding_window_storage/sliding_window_storage.h: the queue of assets goes through the list of
-- actions, one action for each round. An action may change the queue and the world, `W`, which is all
-- that it captures. `none` is undefined behaviour: `front` or `pop` of an empty queue.
pub mod Rounds
pub mod Deviation
use cryptobot_algo.Base.{ℕ, zero, suc, Option, none, some, List, [], ◌∷◌, ◌++◌, length, then_do}

-- `std::function<void(std::queue<HashT>&, const HashT, const T&)>`.
abbrev pub Action : Type 0 → Type 0 → Type 0
Action V W = ℕ → V → List ℕ × W → List ℕ × W

pub record CoreStrategy (V W : Type 0) : Type 0 where
  pub actions_to_buy : List (Action V W)
  pub actions_to_sell : List (Action V W)

abbrev pub new_core_strategy : {V W : Type 0} → CoreStrategy V W
new_core_strategy = record { actions_to_buy = []; actions_to_sell = [] }

abbrev pub pop : {W : Type 0} → List ℕ × W → Option (List ℕ × W)
pop ([], w) = none
pop (h ∷ queue, w) = some (queue, w)

abbrev pub world : {W : Type 0} → Option (List ℕ × W) → Option W
world none = none
world (some (queue, w)) = some w

module _ {V W : Type 0} where
  -- The inner loop, over the assets that were in the queue at its start.
  unfoldable pub round : Action V W → V → ℕ → List ℕ × W → Option (List ℕ × W)
  round action value zero s = some s
  round action value (suc i) ([], w) = none
  round action value (suc i) (front ∷ queue, w) =
      then_do (pop (action front value (front ∷ queue, w))) (round action value i)

  -- The outer loop.
  unfoldable pub rounds : List (Action V W) → V → List ℕ × W → Option (List ℕ × W)
  rounds actions value ([], w) = some ([], w)
  rounds [] value (front ∷ queue, w) = some (front ∷ queue, w)
  rounds (action ∷ actions) value (front ∷ queue, w) =
      then_do (round action value (length (front ∷ queue)) (front ∷ queue, w))
        (rounds actions value)

  unfoldable pub add_actions_to_buy : Action V W → CoreStrategy V W → CoreStrategy V W
  add_actions_to_buy action s = record s { actions_to_buy = s.actions_to_buy ++ action ∷ [] }

  unfoldable pub add_actions_to_sell : Action V W → CoreStrategy V W → CoreStrategy V W
  add_actions_to_sell action s = record s { actions_to_sell = s.actions_to_sell ++ action ∷ [] }

  unfoldable pub analyze_to_buy : CoreStrategy V W → ℕ → V → W → Option W
  unfolding rounds
  analyze_to_buy s asset value w = world (rounds s.actions_to_buy value (asset ∷ [], w))

  unfoldable pub analyze_to_sell : CoreStrategy V W → ℕ → V → W → Option W
  unfolding rounds
  analyze_to_sell s asset value w = world (rounds s.actions_to_sell value (asset ∷ [], w))

  -- The task that `AddData` of the observable windows posts to its strand: the loops, and then the
  -- value is added to the window, which is a part of the world.
  unfoldable pub observable_add_data : (ℕ → V → W → W) → CoreStrategy V W → ℕ → V → W → Option W
  unfolding analyze_to_buy analyze_to_sell
  observable_add_data add_data s asset value w =
      then_do (analyze_to_buy s asset value w)
        (λ w1. then_do (analyze_to_sell s asset value w1) (λ w2. some (add_data asset value w2)))

  -- The lists of the observable windows.
  abbrev pub observable_add_actions_to_buy : Action V W → CoreStrategy V W → CoreStrategy V W
  observable_add_actions_to_buy = add_actions_to_buy

  abbrev pub observable_add_actions_to_sell : Action V W → CoreStrategy V W → CoreStrategy V W
  observable_add_actions_to_sell = add_actions_to_sell
