-- ===== src/Pool/ThreadSafe/Twice.antt =====
-- Allocations and a deallocation whose atomic operations are interleaved.
use cryptobot_algo.Base.{ℕ, suc, ◌≡◌, refl, Option, some, List, [], ◌∷◌, ◌++◌, ◌∙◌, ap, ==_refl}
use cryptobot_algo.Pool.ThreadSafe.{
  Task, allocated, deallocated, SharedPool, Event, start_allocate, resume, step, run, advance_task,
  exchanging, write, allocating, loaded,
}
use cryptobot_algo.Pool.ThreadSafe.Alone.{
  allocation, deallocation, continue, not_empty, at_rest, run-allocation, run-deallocation,
}

-- A thread stands between reading the next block and its exchange, while others take two blocks and
-- give the first one back.
abbrev pub interleaving : (u v w x : Option ℕ) (a : ℕ) → List Event
interleaving u v w x a =
    (start_allocate u ∷ resume 0 ∷ resume 0 ∷ [])
    ++ allocation 1 v
    ++ allocation 2 w
    ++ deallocation 3 a
    ++ resume 0 ∷ allocation 4 x

module _ {Pool : Type 0} (malloc : Pool → Option ℕ × Pool) where
  -- The thread that was interrupted exchanges the head, which is again the block that it read.
  exchange_back :
      (pool : Pool) (a : ℕ) (next : Option ℕ) (links : ℕ → Option ℕ) (size : ℕ) (ts : List Task)
      (u : Option ℕ)
      → run malloc
          (resume 0 ∷ [])
          (at_rest malloc pool (some a) links size (exchanging u a next ∷ ts))
        ≡ at_rest malloc pool next (write a u links) size (allocated (some a) ∷ ts)
  unfolding run step advance_task
  exchange_back pool a next links size ts u = rw (run, step, advance_task, ==_refl a) refl

  -- The first three atomic operations of a thread that is interrupted before its exchange.
  begin :
      (pool : Pool) (a : ℕ) (links : ℕ → Option ℕ) (size : ℕ) (u : Option ℕ)
      → run malloc
          (start_allocate u ∷ resume 0 ∷ resume 0 ∷ [])
          (at_rest malloc pool (some a) links size [])
        ≡ at_rest malloc pool (some a) links size (exchanging u a (links a) ∷ [])
  unfolding run step advance_task
  begin pool a links size u =
      let first : step malloc (resume 0)
            (at_rest malloc pool (some a) links size (allocating u ∷ []))
          ≡ at_rest malloc pool (some a) links size (loaded u a ∷ []) =
        rw (advance_task, not_empty size) refl in
      ap (λ s. step malloc (resume 0) s) first

  -- Where the free list has at least two blocks, there is an order of the atomic operations of four
  -- allocations and one deallocation, that of the first block, in which two of the allocations are given
  -- the second block.
  pub run-twice :
      (pool : Pool) (links : ℕ → Option ℕ) (size a b : ℕ) (u v w x : Option ℕ)
      → links a ≡ some b
      → let s : SharedPool Pool = record {
        pool = pool;
        head = some a;
        links = links;
        pool_size = suc size;
        tasks = [];
      } in
        (run malloc (interleaving u v w x a) s).tasks
        ≡ allocated (some a)
          ∷ allocated (some a)
          ∷ allocated (some b)
          ∷ deallocated
          ∷ allocated (some b)
          ∷ []
  run-twice pool links size a b u v w x l =
      let rest = λ (head : Option ℕ) (m : ℕ → Option ℕ) (ts : List Task).
        at_rest malloc pool head m size ts in
      let t₀ = exchanging u a (some b) in
      let m₁ = write a v links in
      let m₂ = write b w m₁ in
      let m₃ = write a (m₁ b) m₂ in
      let m₄ = write a u m₃ in
      let begun : run malloc (start_allocate u ∷ resume 0 ∷ resume 0 ∷ []) (rest (some a) links [])
          ≡ rest (some a) links (t₀ ∷ []) =
        begin pool a links size u ∙ ap (λ n. rest (some a) links (exchanging u a n ∷ [])) l in
      let second : run malloc (allocation 1 v) (rest (some a) links (t₀ ∷ []))
          ≡ rest (some b) m₁ (t₀ ∷ allocated (some a) ∷ []) =
        run-allocation malloc pool a links size (t₀ ∷ []) v
        ∙ ap (λ n. rest n m₁ (t₀ ∷ allocated (some a) ∷ [])) l in
      let third : run malloc (allocation 2 w) (rest (some b) m₁ (t₀ ∷ allocated (some a) ∷ []))
          ≡ rest (m₁ b) m₂ (t₀ ∷ allocated (some a) ∷ allocated (some b) ∷ []) =
        run-allocation malloc pool b m₁ size (t₀ ∷ allocated (some a) ∷ []) w in
      let fourth : run malloc (deallocation 3 a)
            (rest (m₁ b) m₂ (t₀ ∷ allocated (some a) ∷ allocated (some b) ∷ []))
          ≡ rest (some a) m₃ (t₀ ∷ allocated (some a) ∷ allocated (some b) ∷ deallocated ∷ []) =
        run-deallocation malloc pool (m₁ b) a m₂ size
          (t₀ ∷ allocated (some a) ∷ allocated (some b) ∷ []) in
      let ts = allocated (some a) ∷ allocated (some b) ∷ deallocated ∷ [] in
      let fifth : run malloc (resume 0 ∷ []) (rest (some a) m₃ (t₀ ∷ ts))
          ≡ rest (some b) m₄ (allocated (some a) ∷ ts) =
        exchange_back pool a (some b) m₃ size ts u in
      ap (λ (s : SharedPool Pool). s.tasks)
        (continue malloc (start_allocate u ∷ resume 0 ∷ resume 0 ∷ []) _ _ _ begun
          ∙ continue malloc (allocation 1 v) _ _ _ second
          ∙ continue malloc (allocation 2 w) _ _ _ third
          ∙ continue malloc (deallocation 3 a) _ _ _ fourth
          ∙ continue malloc (resume 0 ∷ []) _ _ _ fifth
          ∙ run-allocation malloc pool b m₄ size (allocated (some a) ∷ ts) x)
