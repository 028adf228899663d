-- ===== src/Strategy/Rounds.antt =====
-- The loop of the queue, level by level.
use cryptobot_algo.Base.{
  ℕ, ◌≡◌, refl, sym, ap, ◌∙◌, some, List, [], ◌∷◌, ◌++◌, length, append_assoc, append-nil,
}
use cryptobot_algo.Strategy.{Action, round, rounds}

module _ {V W : Type 0} where
  -- An action that only pushes to the queue, whatever is in it.
  abbrev pub OnlyPushes : Action V W → Type 0
  OnlyPushes action =
      (h : ℕ) (value : V) (queue : List ℕ) (w : W)
      → action h value (queue, w)
        ≡ (queue ++ (action h value ([], w)).0, (action h value ([], w)).1)

  abbrev pub AllPush : List (Action V W) → Type 0
  AllPush [] = Unit
  AllPush (a ∷ actions) = OnlyPushes a × AllPush actions

  -- What an action pushes for a level of assets, in their order.
  unfoldable pub level : Action V W → V → List ℕ → W → List ℕ × W
  level action value [] w = ([], w)
  level action value (h ∷ assets) w =
      let (pushed, w1) = action h value ([], w) in
      let (rest, w2) = level action value assets w1 in (pushed ++ rest, w2)

  -- Each action takes the level that the one before it made.
  unfoldable pub levels : List (Action V W) → V → List ℕ → W → List ℕ × W
  levels [] value assets w = (assets, w)
  levels (action ∷ actions) value assets w =
      let (next, w1) = level action value assets w in levels actions value next w1

  round-level :
      (a : Action V W) (value : V) (assets pushed : List ℕ) (w : W)
      → OnlyPushes a
      → round a value (length assets) (assets ++ pushed, w)
        ≡ some (pushed ++ (level a value assets w).0, (level a value assets w).1)
  unfolding round level
  round-level a value [] pushed w p = rw append-nil refl
  round-level a value (h ∷ assets) pushed w p =
      let x = (a h value ([], w)).0 in
      let w1 = (a h value ([], w)).1 in
      let ih = round-level a value assets (pushed ++ x) w1 p in
      let e = rw (← append_assoc assets pushed x) at ih in
      rw (p h value (h ∷ (assets ++ pushed)) w, round)
        (e
          ∙ ap (λ (l : List ℕ). some (l, (level a value assets w1).1))
              (append_assoc pushed x (level a value assets w1).0))

  whole_round :
      (a : Action V W) (value : V) (assets : List ℕ) (w : W)
      → OnlyPushes a
      → round a value (length assets) (assets, w) ≡ some (level a value assets w)
  whole_round a value assets w p = let e = round-level a value assets [] w p in rw append-nil at e

  pub levels-nil :
      (actions : List (Action V W)) (value : V) (w : W) → levels actions value [] w ≡ ([], w)
  unfolding levels level
  levels-nil [] value w = refl
  levels-nil (a ∷ actions) value w = levels-nil actions value w

  -- With actions that only push, the loop never asks an empty queue for its front, and ends with
  -- what the actions make level by level; an action is run once for each asset of its level.
  pub rounds-levels :
      (actions : List (Action V W)) (value : V) (assets : List ℕ) (w : W)
      → AllPush actions
      → rounds actions value (assets, w) ≡ some (levels actions value assets w)
  unfolding rounds levels
  rounds-levels [] value [] w p = refl
  rounds-levels (a ∷ actions) value [] w p =
      unfold level in sym (ap some (levels-nil actions value w))
  rounds-levels [] value (h ∷ assets) w p = refl
  rounds-levels (a ∷ actions) value (h ∷ assets) w p =
      let step = whole_round a value (h ∷ assets) w p.0 in
      rw (step, rounds)
        (rounds-levels actions value (level a value (h ∷ assets) w).0
          (level a value (h ∷ assets) w).1 p.1)
