-- ===== src/Tests/Pools.antt =====
-- A pool of three blocks, and a free list of two.
use cryptobot_algo.Base.{ℕ, ◌≡◌, refl, true, false, Option, none, some, [], ◌∷◌, ◌⊎◌}
use cryptobot_algo.Pool.{
  MemPool, new_mem_pool, allocate, deallocate, update_next_free_index, advance,
}
use cryptobot_algo.Pool.Blocks.{Took, allocate-answers}
use cryptobot_algo.Pool.Free.{free_count}
use cryptobot_algo.Pool.ThreadSafe.{allocated, deallocated, SharedPool, run, write}
use cryptobot_algo.Pool.ThreadSafe.Twice.{interleaving, run-twice}

-- The first block is in use, the search stands at the last one.
abbrev two_left : MemPool ℕ
two_left = record {
  store =
      record { object = 7; is_free = false }
      ∷ record { object = 0; is_free = true }
      ∷ record { object = 0; is_free = true }
      ∷ [];
  next_free_index = 2;
}

-- The search goes on at the start and finds the block in the middle.
around :
    allocate 3 9 two_left
    ≡ some (
      2,
      record {
        store =
            record { object = 7; is_free = false }
            ∷ record { object = 0; is_free = true }
            ∷ record { object = 9; is_free = false }
            ∷ [];
        next_free_index = 1;
      },
    )
unfolding allocate update_next_free_index advance
around = refl

given_back :
    deallocate 0 two_left
    ≡ some (record (new_mem_pool 3 0) {
      store =
          record { object = 7; is_free = true }
          ∷ record { object = 0; is_free = true }
          ∷ record { object = 0; is_free = true }
          ∷ [];
      next_free_index = 2;
    })
unfolding deallocate
given_back = refl

allocate-answers_example :
    ((q : MemPool ℕ) × (allocate 3 9 two_left ≡ some (2, q)) × Took 9 two_left q)
    ⊎ ((free_count two_left.store ≡ 1) × ((fuel : ℕ) → allocate fuel 9 two_left ≡ none))
allocate-answers_example =
    allocate-answers 9 two_left (record { object = 0; is_free = true }, refl, refl)

-- A source of memory that is empty.
abbrev nothing : ℕ → Option ℕ × ℕ
nothing n = (none, n)

-- Block 4 links to block 6, and that to nothing.
abbrev links : ℕ → Option ℕ
links = write 4 (some 6) (λ _. none)

run-twice_example :
    let s : SharedPool ℕ = record {
      pool = 0;
      head = some 4;
      links = links;
      pool_size = 8;
      tasks = [];
    } in
    (run nothing (interleaving none none none none 4) s).tasks
    ≡ allocated (some 4)
      ∷ allocated (some 4)
      ∷ allocated (some 6)
      ∷ deallocated
      ∷ allocated (some 6)
      ∷ []
run-twice_example = run-twice nothing 0 links 7 4 6 none none none none refl
