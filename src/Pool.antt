-- ===== src/Pool.antt =====
-- aos/common/mem_pool.h, MemPool. A block is named by its index in the store, as `deallocate` computes
-- it from the pointer. ASSERT, which no file of the repository defines, is taken to end the program:
-- `none` is an ASSERT that fails, an index out of bounds, or a search for a free
-- block that the fuel does not suffice for.
pub mod Free
pub mod Blocks
pub mod ThreadSafe
use cryptobot_algo.Base.{
  ℕ, zero, suc, ◌+◌, ◌==◌, Bool, true, false, Option, none, some, List, [], ◌∷◌, map, not, ◌&&◌,
  if◌then◌else◌, length,
}
use cryptobot_algo.Base.Arrays.{get_elem?, set}

pub record ObjectBlock (T : Type 0) : Type 0 where
  pub object : T
  pub is_free : Bool

pub record MemPool (T : Type 0) : Type 0 where
  pub store : List (ObjectBlock T)
  pub next_free_index : ℕ

-- The index after `i`, from the start again at the end.
unfoldable pub advance : ℕ → ℕ → ℕ
advance size i = if i + 1 == size then 0 else i + 1

module _ {T : Type 0} where
  abbrev pub replicate : ℕ → ObjectBlock T → List (ObjectBlock T)
  replicate zero b = []
  replicate (suc n) b = b ∷ replicate n b

  -- The constructor; `t` is the default object.
  abbrev pub new_mem_pool : ℕ → T → MemPool T
  new_mem_pool num_elems t = record {
    store = replicate num_elems (record { object = t; is_free = true });
    next_free_index = 0;
  }

  -- The search, one round of its loop for each unit of fuel. A round that comes back to where it began
  -- logs a warning and goes on.
  unfoldable pub update_next_free_index : ℕ → List (ObjectBlock T) → ℕ → Option ℕ
  update_next_free_index zero store i = none
  update_next_free_index (suc fuel) store i = elim (get_elem? store i) [
    | none ↦ none
    | some b ↦ elim b.is_free [
      | true ↦ some i
      | false ↦ update_next_free_index fuel store (advance (length store) i)
    ]
  ]

  -- What is left of `allocate` once the search has answered: the index of the block, and the pool.
  abbrev pub allocated : ℕ → List (ObjectBlock T) → Option ℕ → Option (ℕ × MemPool T)
  allocated i store none = none
  allocated i store (some next) = some (i, record { store = store; next_free_index = next })

  unfoldable pub allocate : ℕ → T → MemPool T → Option (ℕ × MemPool T)
  allocate fuel t p = elim (get_elem? p.store p.next_free_index) [
    | none ↦ none
    | some b ↦ elim b.is_free [
      | false ↦ none
      | true ↦
          let store = set p.store p.next_free_index (record { object = t; is_free = false }) in
          allocated p.next_free_index store (update_next_free_index fuel store p.next_free_index)
    ]
  ]

  -- The destructor of the object is left out.
  unfoldable pub deallocate : ℕ → MemPool T → Option (MemPool T)
  deallocate i p = elim (get_elem? p.store i) [
    | none ↦ none
    | some b ↦
        if b.is_free
        then none
        else some (record p { store = set p.store i (record b { is_free = true }) })
  ]

  unfoldable pub reset : MemPool T → MemPool T
  reset p = record {
    store = map (λ (b : ObjectBlock T). record b { is_free = true }) p.store;
    next_free_index = 0;
  }
