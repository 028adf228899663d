-- ===== src/Pool/ThreadSafe.antt =====
-- aos/common/mem_pool.h, MemoryPoolThreadSafety: the free list that several threads share, one atomic
-- operation at a time. A pointer is a number, nullptr is none. `links a` is the first word of the block
-- `a` read as a pointer: `Deallocate` writes it, and so does the object that is constructed there, whose
-- word the caller of `Allocate` chooses. `malloc` is that of boost::pool, a parameter.
pub mod Alone
pub mod Twice
use cryptobot_algo.Base.{
  ℕ, zero, suc, ◌==◌, Bool, true, false, Option, none, some, List, [], ◌∷◌, ◌++◌, if◌then◌else◌,
}
use cryptobot_algo.Base.Arrays.{get_elem?, set}

-- Where a thread stands in Allocate or Deallocate; `word` is the first word of the new object.
pub data Task : Type 0 where
  allocating falling_back : (word : Option ℕ) → Task
  loaded : (word : Option ℕ) → (block : ℕ) → Task
  exchanging : (word : Option ℕ) → (block : ℕ) → (next : Option ℕ) → Task
  allocated : Option ℕ → Task
  deallocating : ℕ → Task
  linking pushing : ℕ → (head : Option ℕ) → Task
  deallocated : Task

pub record SharedPool (Pool : Type 0) : Type 0 where
  pub pool : Pool
  pub head : Option ℕ
  pub links : ℕ → Option ℕ
  pub pool_size : ℕ
  pub tasks : List Task

pub data Event : Type 0 where
  start_allocate : (word : Option ℕ) → Event
  start_deallocate resume : ℕ → Event

abbrev pub eqb_pointer : Option ℕ → Option ℕ → Bool
eqb_pointer none none = true
eqb_pointer (some a) (some b) = a == b
eqb_pointer _ _ = false

abbrev pub write : ℕ → Option ℕ → (ℕ → Option ℕ) → ℕ → Option ℕ
write a v links j = if a == j then v else links j

module _ {Pool : Type 0} (malloc : Pool → Option ℕ × Pool) where
  abbrev pub put_task : ℕ → Task → SharedPool Pool → SharedPool Pool
  put_task i t s = record s { tasks = set s.tasks i t }

  -- The object is constructed at the block, and Allocate returns.
  abbrev pub hand_out : ℕ → Option ℕ → Option ℕ → SharedPool Pool → SharedPool Pool
  hand_out i word none s = put_task i (allocated none) s
  hand_out i word (some a) s =
      put_task i (allocated (some a)) (record s { links = write a word s.links })

  abbrev pub load_head : ℕ → Option ℕ → Option ℕ → SharedPool Pool → SharedPool Pool
  load_head i word none s = put_task i (falling_back word) s
  load_head i word (some block) s = put_task i (loaded word block) s

  unfoldable pub advance_task : ℕ → Task → SharedPool Pool → SharedPool Pool
  advance_task i (allocating word) s =
      if s.pool_size == 0 then put_task i (allocated none) s else load_head i word s.head s
  advance_task i (loaded word block) s = put_task i (exchanging word block (s.links block)) s
  advance_task i (exchanging word block next) s =
      if eqb_pointer s.head (some block)
      then hand_out i word (some block) (record s { head = next })
      else put_task i (falling_back word) s
  advance_task i (falling_back word) s =
      let (a, pool) = malloc s.pool in hand_out i word a (record s { pool = pool })
  advance_task i (deallocating a) s = put_task i (linking a s.head) s
  advance_task i (linking a head) s =
      put_task i (pushing a head) (record s { links = write a head s.links })
  advance_task i (pushing a head) s =
      if eqb_pointer s.head head
      then put_task i deallocated (record s { head = some a })
      else put_task i (linking a s.head) s
  advance_task i _ s = s

  unfoldable pub step : Event → SharedPool Pool → SharedPool Pool
  unfolding advance_task
  step (start_allocate word) s = record s { tasks = s.tasks ++ allocating word ∷ [] }
  step (start_deallocate a) s = record s { tasks = s.tasks ++ deallocating a ∷ [] }
  step (resume i) s = elim (get_elem? s.tasks i) [ none ↦ s | some t ↦ advance_task i t s ]

  unfoldable pub run : List Event → SharedPool Pool → SharedPool Pool
  unfolding step
  run [] s = s
  run (e ∷ es) s = run es (step e s)
