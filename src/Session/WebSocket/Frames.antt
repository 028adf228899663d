-- ===== src/Session/WebSocket/Frames.antt =====
-- The frames of a session: what the cancellation signal does to them, and sums over them.
use cryptobot_algo.Base.{
  ℕ, ◌+◌, ◌≡◌, refl, sym, ◌∙◌, true, false, some, ◌⊎◌, ◌==◌, ◌≢◌, arith, Bool-cases, Option-cases,
  inl, inr,
}
use cryptobot_algo.Base.Arrays.{
  get_elem?, set, sum_by, sum_by-set, get_elem?-set_self, get_elem?-set_other,
}
use cryptobot_algo.Session.WebSocket.{Task, Frame, Session, is_ended, emit, put_frame}

module _ {M : Type 0} where
  -- A sum over the frames of a session.
  abbrev pub tally : (Task M → ℕ) → Session M → ℕ
  tally w s = sum_by (λ f. w f.task) s.frames

  -- What emit does: nothing, a write to a destroyed frame, or a write to a live one.
  pub emit-cases :
      (s : Session M)
      → ((emit s ≡ s) ⊎ (emit s ≡ record s { dangling = true }))
        ⊎ ((i : ℕ) × (f : Frame M) × (get_elem? s.frames i ≡ some f)
            × (is_ended f.task ≡ false)
            × (emit s ≡ put_frame i (record f { cancelled = true }) s))
  unfolding emit
  emit-cases s = elim (Option-cases s.slot) [
    | inl e ↦ inl (inl (simp (e, emit)))
    | inr (i, e) ↦ elim (Option-cases (get_elem? s.frames i)) [
      | inl g ↦ inl (inl (simp (e, emit, g)))
      | inr (f, g) ↦ elim (Bool-cases (is_ended f.task)) [
        | inl over ↦ inl (inr (simp (e, emit, g, over)))
        | inr live ↦ inr (i, f, g, live, simp (e, emit, g, live))
      ]
    ]
  ]

  pub emit-tally : (w : Task M → ℕ) (s : Session M) → tally w (emit s) ≡ tally w s
  emit-tally w s = elim (emit-cases s) [
    | inl (inl e) ↦ rw e refl
    | inl (inr e) ↦ rw e refl
    | inr (i, f, g, live, e) ↦
        rw e
          (omega (arith, sum_by-set (λ f. w f.task) s.frames i f (record f { cancelled = true }) g))
  ]

  -- A frame that is written again.
  pub tally-put :
      (w : Task M → ℕ) (i : ℕ) (f g : Frame M) (s : Session M)
      → get_elem? s.frames i ≡ some f
      → tally w (put_frame i g s) + w f.task ≡ tally w s + w g.task
  tally-put w i f g s e = sum_by-set (λ f. w f.task) s.frames i f g e

  task-eq : (f g : Frame M) → some f ≡ some g → g.task ≡ f.task
  task-eq f g e = cc

  -- The task that a frame has after emit is the one that it had.
  pub emit-task :
      (s : Session M) (i : ℕ) (f g : Frame M)
      → get_elem? s.frames i ≡ some f
      → get_elem? (emit s).frames i ≡ some g
      → g.task ≡ f.task
  emit-task s i f g e e' = elim (emit-cases s) [
    | inl (inl q) ↦ task-eq f g (sym e ∙ (rw q at e'))
    | inl (inr q) ↦ task-eq f g (sym e ∙ (rw q at e'))
    | inr (j, h, k, live, q) ↦
        let r : get_elem? (set s.frames j (record h { cancelled = true })) i ≡ some g =
          rw q at e' in
        elim (Bool-cases (j == i)) [
          | inl at ↦
              let x : j ≡ i = ground arith in
              let k' : get_elem? s.frames i ≡ some h = rw (← x) k in
              let r' : get_elem? (set s.frames i (record h { cancelled = true })) i ≡ some g =
                rw x at r in
              let m = get_elem?-set_self s.frames i h (record h { cancelled = true }) k' in
              task-eq (record h { cancelled = true }) g (sym m ∙ r') ∙ task-eq f h (sym e ∙ k')
          | inr off ↦
              let x : j ≢ i = ground arith in
              let m = get_elem?-set_other s.frames j i (record h { cancelled = true }) x in
              task-eq f g (sym e ∙ sym m ∙ r)
        ]
  ]
