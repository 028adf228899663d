-- ===== src/Ids/Distinct.antt =====
-- How often an id is in use at one time.
use cryptobot_algo.Base.{
  ℕ, suc, ◌+◌, ◌-◌, ◌%◌, ◌^◌, ◌≤◌, ◌<◌, ◌≡◌, refl, true, List, [], ◌∷◌, ◌++◌, arith, ◌==◌, ltb,
  if◌then◌else◌,
}
use cryptobot_algo.Ids.{UidManager, new_uid_manager, issue, get_unique_id, return_id_to_pool}

-- How often an id is in a list.
unfoldable pub times : ℕ → List ℕ → ℕ
times x [] = 0
times x (y ∷ ys) = if y == x then suc (times x ys) else times x ys

unfoldable pub take_out : ℕ → List ℕ → List ℕ
take_out x [] = []
take_out x (y ∷ ys) = if y == x then ys else y ∷ take_out x ys

-- A history: an id is issued, or one that is in use is returned. The list holds the ids in use, the
-- number counts those issued.
pub data Uses : ℕ → List ℕ → UidManager → Type 0 where
  none_yet : Uses 0 [] new_uid_manager
  get :
      {n : ℕ} {ids : List ℕ} {m : UidManager}
      → Uses n ids m
      → Uses (suc n) ((get_unique_id m).0 ∷ ids) (get_unique_id m).1
  give_back :
      {n : ℕ} {ids : List ℕ} {m : UidManager}
      → Uses n ids m
      → (id : ℕ) → 0 < times id ids
      → Uses n (take_out id ids) (return_id_to_pool id m)

times-append : (x : ℕ) (ys : List ℕ) (y : ℕ) → times x (ys ++ y ∷ []) ≡ times x (y ∷ ys)
unfolding times
times-append x [] y = refl
times-append x (z ∷ ys) y = ground (arith, times-append x ys y)

pub times-take_out :
    (x y : ℕ) (ys : List ℕ)
    → 0 < times y ys
    → times x (take_out y ys) ≡ (if y == x then times x ys - 1 else times x ys)
unfolding times take_out
times-take_out x y [] h = absurd (omega (arith, h))
times-take_out x y (z ∷ ys) h = ground (arith, times-take_out x y ys)

-- Every id below the generator's is in use once or in the pool once, and no other id is anywhere.
record Inv (n : ℕ) (ids : List ℕ) (m : UidManager) : Type 0 where
  bounded : m.current_id ≤ n
  once : (x : ℕ) → times x ids + times x m.pool ≡ (if ltb x m.current_id then 1 else 0)

issue-Inv :
    (n : ℕ) (ids : List ℕ) (current : ℕ) (pool : List ℕ)
    → suc n < 2 ^ 64
    → Inv n ids (record { current_id = current; pool = pool })
    → let r = get_unique_id (record { current_id = current; pool = pool }) in
      Inv (suc n) (r.0 ∷ ids) r.1
unfolding get_unique_id issue times
issue-Inv n ids current [] b v =
    let next : (current + 1) % 2 ^ 64 ≡ current + 1 = omega (arith, v.bounded) in
    rw next (record { bounded = omega (arith, v.bounded); once = λ x. ground (arith, v.once x) })
issue-Inv n ids current (id ∷ pool) b v = record {
  bounded = omega (arith, v.bounded);
  once = λ x. ground (arith, v.once x);
}

Uses-Inv : {n : ℕ} {ids : List ℕ} {m : UidManager} → Uses n ids m → n < 2 ^ 64 → Inv n ids m
unfolding times return_id_to_pool
Uses-Inv none_yet b = record { bounded = omega arith; once = λ x. ground arith }
Uses-Inv (get {n = n} {ids = ids} {m = m} r) b =
    issue-Inv n ids m.current_id m.pool b (Uses-Inv r (omega arith))
Uses-Inv (give_back {n = n} {ids = ids} {m = m} r id h) b =
    let v = Uses-Inv r b in
    record {
      bounded = v.bounded;
      once = λ x.
          let held : (id == x) ≡ true → 0 < times x ids =
            λ e. let same : id ≡ x = ground (arith, e) in rw (← same) h in
          rw (times-take_out x id ids h, times-append x m.pool id) (ground (arith, held, v.once x));
    }

-- In every history with fewer than 2^64 ids issued, in which only ids in use are returned, no id is
-- in use twice; those in use or waiting in the pool are just the ids below the generator's, which are
-- at most as many as were issued.
pub Uses-times :
    {n : ℕ} {ids : List ℕ} {m : UidManager}
    → Uses n ids m
    → n < 2 ^ 64
    → ((x : ℕ) → times x ids ≤ 1)
      × ((x : ℕ) → (times x ids + times x m.pool ≡ (if ltb x m.current_id then 1 else 0)))
      × (m.current_id ≤ n)
Uses-times r b = let v = Uses-Inv r b in ((λ x. ground (arith, v.once x)), v.once, v.bounded)
