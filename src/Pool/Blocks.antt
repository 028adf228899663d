-- ===== src/Pool/Blocks.antt =====
-- What an allocation does, and when it does not return.
use cryptobot_algo.Base.{
  ℕ, zero, suc, ◌+◌, ◌<◌, ◌≡◌, refl, false, none, some, arith, inl, inr, ◌⊎◌, length,
}
use cryptobot_algo.Base.Arrays.{set, sum_by-set, lt_of_get_elem?, length-set}
use cryptobot_algo.Pool.{MemPool, allocate}
use cryptobot_algo.Pool.Free.{free_count, free_of, FreeAt, search-finds, search-full}

zero_or_more : (n : ℕ) → (n ≡ 0) ⊎ (0 < n)
zero_or_more zero = inl refl
zero_or_more (suc n) = inr (omega arith)

module _ {T : Type 0} where
  -- The block that is allocated next is free.
  abbrev pub IsReady : MemPool T → Type 0
  IsReady p = FreeAt p.store p.next_free_index

  -- The next block holds `t` and is in use, no other block has changed, and the pool is ready again.
  pub record Took (t : T) (p q : MemPool T) : Type 0 where
    pub store : q.store ≡ set p.store p.next_free_index (record { object = t; is_free = false })
    pub ready : IsReady q
    pub fewer : free_count q.store + 1 ≡ free_count p.store

  fewer_free :
      (t : T) (p : MemPool T)
      → IsReady p
      → free_count (set p.store p.next_free_index (record { object = t; is_free = false })) + 1
        ≡ free_count p.store
  fewer_free t p (b, e, f) =
      let x : free_count (set p.store p.next_free_index (record { object = t; is_free = false }))
            + free_of b
          ≡ free_count p.store + 0 =
        sum_by-set free_of p.store p.next_free_index b (record { object = t; is_free = false }) e in
      omega (arith, rw f at x)

  -- An allocation from a pool whose next block is free: while another block is free too, as many rounds
  -- as there are blocks are enough, the block that was next is given out with the object in it, nothing
  -- else changes and the pool is ready again; when it is the last free block, the allocation never
  -- returns, whatever the fuel.
  pub allocate-answers :
      (t : T) (p : MemPool T)
      → IsReady p
      → ((q : MemPool T) × (allocate (length p.store) t p ≡ some (p.next_free_index, q))
          × Took t p q)
        ⊎ ((free_count p.store ≡ 1) × ((fuel : ℕ) → allocate fuel t p ≡ none))
  unfolding allocate
  allocate-answers t p (b, e, f) =
      let i = p.next_free_index in
      let store = set p.store i (record { object = t; is_free = false }) in
      let fewer = fewer_free t p (b, e, f) in
      elim (zero_or_more (free_count store)) [
        | inl z ↦
            inr (
              omega (arith, fewer, z),
              λ fuel. rw (allocate, e, f, search-full fuel i store z) refl,
            )
        | inr more ↦
            let size : length store ≡ length p.store = length-set p.store i _ in
            let (k, found, free) =
              search-finds store i (omega (arith, size, lt_of_get_elem? p.store i b e)) more in
            inl (
              record { store = store; next_free_index = k },
              rw (allocate, e, f, rw size at found) refl,
              record { store = refl; ready = free; fewer = fewer },
            )
      ]
