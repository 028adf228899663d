-- ===== src/Trackers/Extreme/Tracks.antt =====
-- A tracker against the list of the values that it holds for an asset, oldest first.
use cryptobot_algo.Base.{
  ℕ, suc, ◌<◌, ◌≡◌, refl, sym, ap, ◌∙◌, Bool, false, Option, none, some, List, [], ◌∷◌, ◌++◌, arith,
  ◌==◌, if◌then◌else◌, Bool-cases, Option-cases, inl, inr,
}
use cryptobot_algo.Base.Int.{ℤ, eqb_ℤ, eqb_ℤ_refl}
use cryptobot_algo.Base.Maps.{get_or}
use cryptobot_algo.Trackers.Frequency.{
  Frequency, freq, increment, decrement, IsCounter, increment-IsCounter, decrement-IsCounter,
  freq-increment, freq-decrement,
}
use cryptobot_algo.Trackers.Extreme.{
  Tracker, new_tracker, prepare, count_in, on_add, reselect, count_out, on_remove, get_element,
}
use cryptobot_algo.Trackers.Extreme.Keys.{IsExtreme, better}

-- How often a value is held.
abbrev pub count : ℤ → List ℤ → ℕ
count v [] = 0
count v (w ∷ ws) = if eqb_ℤ w v then suc (count v ws) else count v ws

count-append : (v w : ℤ) (ws : List ℤ) → count v (ws ++ w ∷ []) ≡ count v (w ∷ ws)
count-append v w [] = refl
count-append v w (x ∷ ws) = ground (arith, count-append v w ws)

uncounted : (ws : List ℤ) → ((v : ℤ) → count v ws ≡ 0) → ws ≡ []
uncounted [] h = refl
uncounted (w ∷ ws) h = absurd (ground (arith, h w, eqb_ℤ_refl w))

abbrev pub held : Tracker → ℕ → Frequency
held t h = get_or [] (t.frequency h)

module _ (beats : ℤ → ℤ → Bool) (key : Frequency → Option ℤ) (laws : IsExtreme beats key) where
  open laws use {key-none, key-nil, key-increment, key-decrement, key-held, key-best}

  -- The counts are those of `ws`, and the element is the extreme of them.
  pub record Tracks (t : Tracker) (h : ℕ) (ws : List ℤ) : Type 0 where
    pub counter : IsCounter (held t h)
    pub counts : (v : ℤ) → freq v (held t h) ≡ count v ws
    pub extreme : t.element h ≡ key (held t h)

  pub new_tracker-Tracks : (h : ℕ) → Tracks new_tracker h []
  unfolding freq
  new_tracker-Tracks h = record { counter = tt; counts = λ v. refl; extreme = sym key-nil }

  -- After `prepare` the map is as it was, and the element is the old one or the new value.
  prepare_lem :
      (h : ℕ) (v : ℤ) (t : Tracker)
      → t.element h ≡ key (held t h)
      → (held (prepare h v t) h ≡ held t h)
        × ((prepare h v t).element h ≡ some (get_or v (t.element h)))
  prepare_lem h v t e = elim (Option-cases (t.element h)) [
    | inl f ↦ ground (arith, f, key-none (held t h))
    | inr (x, f) ↦ ground (arith, f)
  ]

  count_in_element :
      (h : ℕ) (v x : ℤ) (t : Tracker)
      → t.element h ≡ some x
      → (count_in beats h v t).element h ≡ some (if beats v x then v else x)
  count_in_element h v x t e = ground arith

  held-count_in :
      (h : ℕ) (v : ℤ) (t : Tracker) → held (count_in beats h v t) h ≡ increment v (held t h)
  held-count_in h v t = ground arith

  better_first :
      (v : ℤ) (o : Option ℤ)
      → beats v v ≡ false
      → (if beats v (get_or v o) then v else get_or v o) ≡ better beats v o
  better_first v none strict = rw strict refl
  better_first v (some x) strict = refl

  -- An element that is read from the counts, brought up to date with a new value.
  count_in-Tracks :
      (h : ℕ) (v : ℤ) (t : Tracker) (m : Frequency) (ws : List ℤ)
      → held t h ≡ m
      → IsCounter m
      → ((w : ℤ) → freq w m ≡ count w ws)
      → t.element h ≡ some (get_or v (key m))
      → beats v v ≡ false
      → Tracks (count_in beats h v t) h (ws ++ v ∷ [])
  count_in-Tracks h v t m ws e i c x strict = record {
    counter = rw (held-count_in h v t, e) (increment-IsCounter v m i);
    counts =
        λ w. rw (held-count_in h v t, e, count-append w v ws, freq-increment v w m i, c w) refl;
    extreme =
        rw (held-count_in h v t, e, key-increment v m i)
          (count_in_element h v (get_or v (key m)) t x ∙ ap some (better_first v (key m) strict));
  }

  pub on_add-Tracks :
      (h : ℕ) (v : ℤ) (t : Tracker) (ws : List ℤ)
      → beats v v ≡ false
      → Tracks t h ws
      → Tracks (on_add beats h v t) h (ws ++ v ∷ [])
  unfolding on_add
  on_add-Tracks h v t ws strict r =
      let (same, x) = prepare_lem h v t r.extreme in
      count_in-Tracks h v (prepare h v t) (held t h) ws same r.counter r.counts
        (x ∙ ap (λ o. some (get_or v o)) r.extreme) strict

  -- Where the map and its extreme are `m` and `x`, the element is right after a removal too.
  reselect_lem :
      (h : ℕ) (v x : ℤ) (t : Tracker) (m : Frequency)
      → IsCounter m
      → t.element h ≡ some x
      → key m ≡ some x
      → reselect key h v (decrement v m) t h ≡ key (decrement v m)
  reselect_lem h v x t m i e k = elim (Bool-cases (eqb_ℤ x v)) [
    | inr other ↦ rw (e, other, key-decrement v x m i k other) (ground arith)
    | inl hit ↦ elim (Option-cases (key (decrement v m))) [
      | inl f ↦ rw (e, hit, f) (ground arith)
      | inr (y, f) ↦ rw (e, hit, f) (ground arith)
    ]
  ]

  count_out-Tracks :
      (h : ℕ) (v x : ℤ) (t : Tracker) (m : Frequency) (ws : List ℤ)
      → IsCounter m
      → ((w : ℤ) → freq w m ≡ count w (v ∷ ws))
      → t.element h ≡ some x
      → key m ≡ some x
      → Tracks (count_out key h v (decrement v m) t) h ws
  count_out-Tracks h v x t m ws i c e k =
      let same : held (count_out key h v (decrement v m) t) h ≡ decrement v m = ground arith in
      record {
        counter = rw same (decrement-IsCounter v m i);
        counts = λ w. rw (same, freq-decrement v w m i, c w) (ground arith);
        extreme = rw same (reselect_lem h v x t m i e k);
      }

  -- A value that is counted has a map with an extreme.
  key_of_counted : (v : ℤ) (m : Frequency) → (freq v m == 0) ≡ false → (x : ℤ) × (key m ≡ some x)
  unfolding freq
  key_of_counted v m h = elim (Option-cases (key m)) [
    | inr r ↦ r
    | inl f ↦
        let nil : m ≡ [] = key-none m f in
        let zeroed : freq v m ≡ 0 = rw nil refl in absurd (ground (arith, zeroed))
  ]

  on_remove_found :
      (h : ℕ) (v : ℤ) (t : Tracker) (m : Frequency)
      → t.frequency h ≡ some m
      → (freq v m == 0) ≡ false
      → on_remove key h v t ≡ count_out key h v (decrement v m) t
  unfolding on_remove
  on_remove_found h v t m f found = ground (arith, f, found)

  -- Removing the oldest value leaves the others.
  pub on_remove-Tracks :
      (h : ℕ) (v : ℤ) (t : Tracker) (ws : List ℤ)
      → Tracks t h (v ∷ ws)
      → Tracks (on_remove key h v t) h ws
  unfolding freq
  on_remove-Tracks h v t ws r =
      let counted : freq v (held t h) ≡ suc (count v ws) = rw (r.counts v, eqb_ℤ_refl v) refl in
      elim (Option-cases (t.frequency h)) [
        | inl f ↦ absurd (ground (arith, f, counted))
        | inr (m, f) ↦
            let same : held t h ≡ m = rw f refl in
            let there : freq v m ≡ suc (count v ws) = rw (← same) counted in
            let found : (freq v m == 0) ≡ false = ground (arith, there) in
            let (x, k) = key_of_counted v m found in
            let i : IsCounter m = rw (← same) r.counter in
            let c : (w : ℤ) → freq w m ≡ count w (v ∷ ws) = rw (← same) r.counts in
            let e : t.element h ≡ some x = rw (r.extreme, same) k in
            rw (on_remove_found h v t m f found) (count_out-Tracks h v x t m ws i c e k)
      ]

  -- The extreme of a list: a value of it that no value of it beats, or nothing where it is empty.
  abbrev pub IsBest : List ℤ → Option ℤ → Type 0
  IsBest ws none = ws ≡ []
  IsBest ws (some x) = (0 < count x ws) × ((y : ℤ) → 0 < count y ws → beats y x ≡ false)

  pub get_element-IsBest :
      (h : ℕ) (t : Tracker) (ws : List ℤ) → Tracks t h ws → IsBest ws (get_element h t)
  unfolding freq
  get_element-IsBest h t ws r = elim (Option-cases (key (held t h))) [
    | inl f ↦
        rw (r.extreme, f)
          (let nil = key-none (held t h) f in
            uncounted ws (λ v. sym (r.counts v) ∙ ap (freq v) nil))
    | inr (x, f) ↦
        rw (r.extreme, f)
          (
            rw (← r.counts x) (key-held x (held t h) r.counter f),
            λ y c. key-best x y (held t h) r.counter f (rw (r.counts y) c),
          )
  ]
