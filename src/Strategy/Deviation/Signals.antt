-- ===== src/Strategy/Deviation/Signals.antt =====
-- What the strategy signals.
use cryptobot_algo.Base.{
  ℕ, ◌≡◌, refl, sym, ap, ◌∙◌, Bool, true, false, ◌&&◌, Option-cases, none, some, List, [], ◌∷◌,
  ◌++◌, ◌==◌, if◌then◌else◌, append_assoc, append-nil, Bool-cases, inl, inr, arith,
}
use cryptobot_algo.Base.Int.{ℤ}
use cryptobot_algo.Triplets.{get_pairs, has_pair, MarketTripletManager}
use cryptobot_algo.Strategy.{
  Action, rounds, world, analyze_to_buy, analyze_to_sell, add_actions_to_buy, add_actions_to_sell,
}
use cryptobot_algo.Strategy.Rounds.{OnlyPushes, level, levels, rounds-levels}
use cryptobot_algo.Strategy.Deviation.{
  DeviationStrategy, World, new_world, consider, allow, deviates, deviate, informs, push_informed,
  inform, signal_buy, signal_sell, init_buy_actions, init_sell_actions, init,
  deviation_analyze_to_buy, deviation_analyze_to_sell, engine_add_data, deviation_add_data, defined,
}
use cryptobot_algo.Strategy.Deviation.Levels.{
  signals, with_buy, with_sell, level-signal_buy, level-signal_sell, nothing_pushed, taint, or-true,
  taint-false, keep_informed, is_none_or,
}

module _ (quot : ℤ → ℕ → ℤ) (ratio : ℤ → ℤ → ℤ) (weigh : ℕ → ℕ → ℕ → ℕ → ℤ) where
  -- The pairs that share enough information with an asset.
  unfoldable pub informed : ℕ → List ℕ → DeviationStrategy → List ℕ
  informed asset [] w = []
  informed asset (pair ∷ pairs) w =
      keep_informed (informs quot ratio weigh asset pair w) pair (informed asset pairs w)

  -- With some pair the information is undefined.
  unfoldable pub undetermined : ℕ → List ℕ → DeviationStrategy → Bool
  undetermined asset [] w = false
  undetermined asset (pair ∷ pairs) w =
      is_none_or (informs quot ratio weigh asset pair w) (undetermined asset pairs w)

  -- The pairs of an asset are considered where it is the allowed one and its value deviates.
  unfoldable pub is_analysed : ℕ → ℤ → DeviationStrategy → Bool
  is_analysed asset value w =
      (asset == w.config.allowed_asset_hash) && deviates quot ratio weigh asset value w

  -- The assets to signal.
  unfoldable pub chosen : ℕ → ℤ → DeviationStrategy → List ℕ
  unfolding informed is_analysed
  chosen asset value w =
      if is_analysed asset value w
      then informed asset (get_pairs asset w.market_triplet_manager) w
      else []

  -- The choice computes something undefined.
  unfoldable pub is_undefined : ℕ → ℤ → DeviationStrategy → Bool
  unfolding undetermined is_analysed
  is_undefined asset value w =
      is_analysed asset value w && undetermined asset (get_pairs asset w.market_triplet_manager) w

  push_informed-append :
      (asset : ℕ) (pairs queue : List ℕ) (w : World)
      → push_informed quot ratio weigh asset pairs (queue, w)
        ≡ (queue ++ informed asset pairs w.strategy, taint (undetermined asset pairs w.strategy) w)
  unfolding push_informed informed undetermined consider
  push_informed-append asset [] queue w =
      ap (λ (v : World). (queue, v)) (sym (taint-false w)) ∙ nothing_pushed queue (taint false w)
  push_informed-append asset (pair ∷ pairs) queue w =
      elim (Option-cases (informs quot ratio weigh asset pair w.strategy)) [
        | inl unknown ↦
            rw (undetermined, informed, unknown)
              (push_informed-append asset pairs queue (record w { undefined = true })
                ∙ ap
                    (λ (b : Bool).
                      (queue ++ informed asset pairs w.strategy, record w { undefined = b }))
                    (sym (or-true w.undefined)))
        | inr (true, known) ↦
            rw (undetermined, informed, known)
              (push_informed-append asset pairs (queue ++ pair ∷ []) w
                ∙ ap (λ (l : List ℕ). (l, taint (undetermined asset pairs w.strategy) w))
                    (append_assoc queue (pair ∷ []) (informed asset pairs w.strategy)))
        | inr (false, known) ↦
            rw (undetermined, informed, known) (push_informed-append asset pairs queue w)
      ]

  allow-OnlyPushes : OnlyPushes allow
  unfolding allow
  allow-OnlyPushes h value queue w = elim (Bool-cases (h == w.strategy.config.allowed_asset_hash)) [
    | inl same ↦ rw same refl
    | inr other ↦ rw other (nothing_pushed queue w)
  ]

  deviate-OnlyPushes : OnlyPushes (deviate quot ratio weigh)
  unfolding deviate
  deviate-OnlyPushes h value queue w =
      elim (Bool-cases (deviates quot ratio weigh h value w.strategy)) [
        | inl far ↦ rw far refl
        | inr near ↦ rw near (nothing_pushed queue w)
      ]

  no_pairs :
      (asset : ℕ) (m : MarketTripletManager) → has_pair asset m ≡ false → get_pairs asset m ≡ []
  unfolding has_pair get_pairs
  no_pairs asset m h = ground (arith, h)

  -- `HasPair` is no more than a shortcut.
  inform_lem :
      (h : ℕ) (value : ℤ) (queue : List ℕ) (w : World)
      → let pairs = get_pairs h w.strategy.market_triplet_manager in
        inform quot ratio weigh h value (queue, w)
        ≡ (queue ++ informed h pairs w.strategy, taint (undetermined h pairs w.strategy) w)
  unfolding inform
  inform_lem h value queue w =
      let m = w.strategy.market_triplet_manager in
      elim (Bool-cases (has_pair h m)) [
        | inl paired ↦ rw paired (push_informed-append h (get_pairs h m) queue w)
        | inr alone ↦
            rw (alone, no_pairs h m alone)
              (unfold push_informed in push_informed-append h [] queue w)
      ]

  inform-OnlyPushes : OnlyPushes (inform quot ratio weigh)
  inform-OnlyPushes h value queue w = rw (inform_lem h value queue w, inform_lem h value [] w) refl

  one_allowed :
      (asset : ℕ) (value : ℤ) (w : World)
      → level allow value (asset ∷ []) w
        ≡ (if asset == w.strategy.config.allowed_asset_hash then asset ∷ [] else [], w)
  unfolding level allow
  one_allowed asset value w =
      ap (λ (l : List ℕ). (l, w))
        (append-nil (if asset == w.strategy.config.allowed_asset_hash then asset ∷ [] else []))

  one_deviates :
      (asset : ℕ) (value : ℤ) (w : World)
      → level (deviate quot ratio weigh) value (asset ∷ []) w
        ≡ (if deviates quot ratio weigh asset value w.strategy then asset ∷ [] else [], w)
  unfolding level deviate
  one_deviates asset value w =
      ap (λ (l : List ℕ). (l, w))
        (append-nil (if deviates quot ratio weigh asset value w.strategy then asset ∷ [] else []))

  one_informs :
      (asset : ℕ) (value : ℤ) (w : World)
      → let pairs = get_pairs asset w.strategy.market_triplet_manager in
        level (inform quot ratio weigh) value (asset ∷ []) w
        ≡ (informed asset pairs w.strategy, taint (undetermined asset pairs w.strategy) w)
  unfolding level
  one_informs asset value w =
      let pairs = get_pairs asset w.strategy.market_triplet_manager in
      rw (inform_lem asset value [] w) (
        ap (λ (l : List ℕ). (l, taint (undetermined asset pairs w.strategy) w))
          (append-nil (informed asset pairs w.strategy)))

  abbrev actions : Action ℤ World → List (Action ℤ World)
  actions signal = allow ∷ deviate quot ratio weigh ∷ inform quot ratio weigh ∷ signal ∷ []

  -- The last action of a list runs once for each chosen asset, in the order of the pairs.
  signal_chosen :
      (signal : Action ℤ World) (asset : ℕ) (value : ℤ) (w : DeviationStrategy)
      → OnlyPushes signal
      → rounds (actions signal) value (asset ∷ [], new_world w)
        ≡ some (
            level signal value
              (chosen asset value w)
              (record { strategy = w; undefined = is_undefined asset value w }))
  unfolding levels chosen is_undefined is_analysed
  signal_chosen signal asset value w p =
      rounds-levels (actions signal) value (asset ∷ []) (new_world w)
        (allow-OnlyPushes, (deviate-OnlyPushes, (inform-OnlyPushes, (p, tt))))
      ∙ rw (one_allowed asset value (new_world w))
          (elim (Bool-cases (asset == w.config.allowed_asset_hash)) [
            | inl same ↦
                rw (same, one_deviates asset value (new_world w))
                  (elim (Bool-cases (deviates quot ratio weigh asset value w)) [
                    | inl far ↦ rw (far, one_informs asset value (new_world w)) refl
                    | inr near ↦ rw near (unfold level in refl)
                  ])
            | inr other ↦ rw other (unfold level in refl)
          ])

  analyze_to_buy-chosen :
      (asset : ℕ) (value : ℤ) (w : DeviationStrategy)
      → deviation_analyze_to_buy quot ratio weigh asset value w ≡ (
          if is_undefined asset value w
          then none
          else some (with_buy (signals (chosen asset value w) value) w))
  unfolding deviation_analyze_to_buy analyze_to_buy init init_buy_actions init_sell_actions
      add_actions_to_buy add_actions_to_sell
  analyze_to_buy-chosen asset value w =
      let v : World = record { strategy = w; undefined = is_undefined asset value w } in
      ap (λ r. defined (world r))
        (signal_chosen signal_buy asset value w
          (λ h v queue u. unfold signal_buy in nothing_pushed queue (signal_buy h v ([], u)).1))
      ∙ ap (λ (r : List ℕ × World). defined (some r.1))
          (level-signal_buy (chosen asset value w) value v)

  analyze_to_sell-chosen :
      (asset : ℕ) (value : ℤ) (w : DeviationStrategy)
      → deviation_analyze_to_sell quot ratio weigh asset value w ≡ (
          if is_undefined asset value w
          then none
          else some (with_sell (signals (chosen asset value w) value) w))
  unfolding deviation_analyze_to_sell analyze_to_sell init init_buy_actions init_sell_actions
      add_actions_to_buy add_actions_to_sell
  analyze_to_sell-chosen asset value w =
      let v : World = record { strategy = w; undefined = is_undefined asset value w } in
      ap (λ r. defined (world r))
        (signal_chosen signal_sell asset value w
          (λ h v queue u. unfold signal_sell in nothing_pushed queue (signal_sell h v ([], u)).1))
      ∙ ap (λ (r : List ℕ × World). defined (some r.1))
          (level-signal_sell (chosen asset value w) value v)

  -- The choice does not depend on the signals so far.
  informed_same :
      (asset : ℕ) (pairs : List ℕ) (w : DeviationStrategy) (l : List (ℕ × ℤ))
      → (informed asset pairs (record w { to_buy = l }) ≡ informed asset pairs w)
        × (undetermined asset pairs (record w { to_buy = l }) ≡ undetermined asset pairs w)
  unfolding informed undetermined informs
  informed_same asset [] w l = (refl, refl)
  informed_same asset (pair ∷ pairs) w l =
      let (i, u) = informed_same asset pairs w l in
      let known = informs quot ratio weigh asset pair w in
      (ap (keep_informed known pair) i, ap (is_none_or known) u)

  chosen_same :
      (asset : ℕ) (value : ℤ) (w : DeviationStrategy) (l : List (ℕ × ℤ))
      → (chosen asset value (record w { to_buy = l }) ≡ chosen asset value w)
        × (is_undefined asset value (record w { to_buy = l }) ≡ is_undefined asset value w)
  unfolding chosen is_undefined is_analysed
  chosen_same asset value w l =
      let (i, u) = informed_same asset (get_pairs asset w.market_triplet_manager) w l in
      (rw i refl, rw u refl)

  -- A value that the engine is given is compared with the window as it was before. If the asset is the
  -- allowed one and the value deviates enough, each pair of the asset that shares enough information
  -- with it is signalled to buy, and the same pairs are signalled to sell, in the order of the pairs;
  -- otherwise nothing is signalled. Then the value is added to the window. No queue is read while it
  -- is empty, and the behaviour is undefined just if the pairs are considered and the information that
  -- one of them shares is undefined (windows of equal values).
  pub engine_add_data-chosen :
      (asset : ℕ) (value : ℤ) (w : DeviationStrategy)
      → let new = signals (chosen asset value w) value in
        engine_add_data quot ratio weigh asset value w ≡ (
          if is_undefined asset value w
          then none
          else some (
              deviation_add_data asset value
                (record w { to_buy = w.to_buy ++ new; to_sell = w.to_sell ++ new })))
  unfolding engine_add_data
  engine_add_data-chosen asset value w =
      let new = signals (chosen asset value w) value in
      let w1 : DeviationStrategy = record w { to_buy = w.to_buy ++ new } in
      let (same, defined_too) = chosen_same asset value w (w.to_buy ++ new) in
      rw (analyze_to_buy-chosen asset value w) (elim (Bool-cases (is_undefined asset value w)) [
        | inl undefined ↦ rw undefined refl
        | inr fine ↦ rw (fine, analyze_to_sell-chosen asset value w1, same, defined_too, fine) refl
      ])
