-- ===== src/Pool/ThreadSafe/Alone.antt =====
-- An operation whose atomic operations follow each other.
use cryptobot_algo.Base.{
  ℕ, suc, ◌==◌, ◌≡◌, refl, true, false, Option, none, some, List, [], ◌∷◌, ◌++◌, ==_refl, ◌∙◌, ap,
  arith, length,
}
use cryptobot_algo.Base.Arrays.{get_elem?-snoc, set-snoc}
use cryptobot_algo.Pool.ThreadSafe.{
  Task, allocated, deallocated, SharedPool, Event, start_allocate, start_deallocate, resume, step,
  run, advance_task, exchanging, write, allocating, loaded, linking, pushing, deallocating,
  eqb_pointer,
}

-- Every call of thread `n`, one atomic operation after another.
abbrev pub allocation : ℕ → Option ℕ → List Event
allocation n word = start_allocate word ∷ resume n ∷ resume n ∷ resume n ∷ []

abbrev pub deallocation : ℕ → ℕ → List Event
deallocation n a = start_deallocate a ∷ resume n ∷ resume n ∷ resume n ∷ []

eqb_pointer_refl : (p : Option ℕ) → eqb_pointer p p ≡ true
eqb_pointer_refl none = refl
eqb_pointer_refl (some a) = ==_refl a

pub not_empty : (size : ℕ) → (suc size == 0) ≡ false
not_empty size = ground arith

module _ {Pool : Type 0} (malloc : Pool → Option ℕ × Pool) where
  run-append :
      (es ds : List Event) (s : SharedPool Pool)
      → run malloc (es ++ ds) s ≡ run malloc ds (run malloc es s)
  unfolding run
  run-append [] ds s = refl
  run-append (e ∷ es) ds s = run-append es ds (step malloc e s)

  -- A part of the history after another one.
  pub continue :
      (es ds : List Event) (s t : SharedPool Pool)
      → run malloc es s ≡ t
      → run malloc (es ++ ds) s ≡ run malloc ds t
  continue es ds s t e = run-append es ds s ∙ ap (run malloc ds) e

  -- The state that an operation finds.
  abbrev pub at_rest : Pool → Option ℕ → (ℕ → Option ℕ) → ℕ → List Task → SharedPool Pool
  at_rest pool head links size ts = record {
    pool = pool;
    head = head;
    links = links;
    pool_size = suc size;
    tasks = ts;
  }

  -- A step of the thread that was started last.
  resume_last :
      (pool : Pool) (head : Option ℕ) (links : ℕ → Option ℕ) (size : ℕ) (ts : List Task) (t : Task)
      → let s = at_rest pool head links size (ts ++ t ∷ []) in
        step malloc (resume (length ts)) s ≡ advance_task malloc (length ts) t s
  unfolding step
  resume_last pool head links size ts t = rw (step, get_elem?-snoc ts t) refl

  pub run-allocation :
      (pool : Pool) (a : ℕ) (links : ℕ → Option ℕ) (size : ℕ) (ts : List Task) (word : Option ℕ)
      → run malloc (allocation (length ts) word) (at_rest pool (some a) links size ts)
        ≡ at_rest pool (links a) (write a word links) size (ts ++ allocated (some a) ∷ [])
  unfolding run step advance_task
  run-allocation pool a links size ts word =
      let first : step malloc (resume (length ts))
            (at_rest pool (some a) links size (ts ++ allocating word ∷ []))
          ≡ at_rest pool (some a) links size (ts ++ loaded word a ∷ []) =
        resume_last pool (some a) links size ts (allocating word)
        ∙ rw (advance_task, not_empty size, set-snoc ts (allocating word) (loaded word a)) refl in
      let second : step malloc (resume (length ts))
            (at_rest pool (some a) links size (ts ++ loaded word a ∷ []))
          ≡ at_rest pool (some a) links size (ts ++ exchanging word a (links a) ∷ []) =
        resume_last pool (some a) links size ts (loaded word a)
        ∙ rw (advance_task, set-snoc ts (loaded word a) (exchanging word a (links a))) refl in
      ap (λ s. step malloc (resume (length ts)) (step malloc (resume (length ts)) s)) first
      ∙ ap (λ s. step malloc (resume (length ts)) s) second
      ∙ (resume_last pool (some a) links size ts (exchanging word a (links a))
          ∙ rw
              (
                advance_task,
                ==_refl a,
                set-snoc ts (exchanging word a (links a)) (allocated (some a)),
              )
              refl)

  pub run-deallocation :
      (pool : Pool) (head : Option ℕ) (a : ℕ) (links : ℕ → Option ℕ) (size : ℕ) (ts : List Task)
      → run malloc (deallocation (length ts) a) (at_rest pool head links size ts)
        ≡ at_rest pool (some a) (write a head links) size (ts ++ deallocated ∷ [])
  unfolding run step advance_task
  run-deallocation pool head a links size ts =
      let first : step malloc (resume (length ts))
            (at_rest pool head links size (ts ++ deallocating a ∷ []))
          ≡ at_rest pool head links size (ts ++ linking a head ∷ []) =
        resume_last pool head links size ts (deallocating a)
        ∙ rw (advance_task, set-snoc ts (deallocating a) (linking a head)) refl in
      let second : step malloc (resume (length ts))
            (at_rest pool head links size (ts ++ linking a head ∷ []))
          ≡ at_rest pool head (write a head links) size (ts ++ pushing a head ∷ []) =
        resume_last pool head links size ts (linking a head)
        ∙ rw (advance_task, set-snoc ts (linking a head) (pushing a head)) refl in
      ap (λ s. step malloc (resume (length ts)) (step malloc (resume (length ts)) s)) first
      ∙ ap (λ s. step malloc (resume (length ts)) s) second
      ∙ (resume_last pool head (write a head links) size ts (pushing a head)
          ∙ rw (advance_task, eqb_pointer_refl head, set-snoc ts (pushing a head) deallocated) refl)
