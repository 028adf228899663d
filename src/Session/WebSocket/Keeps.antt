-- ===== src/Session/WebSocket/Keeps.antt =====
-- What a step leaves that takes no message and ends no writer.
use cryptobot_algo.Base.{
  ℕ, ◌+◌, ◌≤◌, ◌≡◌, refl, ◌∙◌, Bool, true, false, some, List, [], ◌∷◌, arith, Option-cases, inl,
  inr,
}
use cryptobot_algo.Base.Arrays.{get_elem?, sum_by, sum_by-set}
use cryptobot_algo.Session.WebSocket.{
  session_rw, Task, running, read_spawned, reading, ended, write_spawned, delayed, writing, Frame,
  Session, emit, end_read, deliver, put_frame,
}
use cryptobot_algo.Session.WebSocket.Frames.{tally, emit-cases, tally-put, emit-task}
use cryptobot_algo.Session.WebSocket.Held.{bit}

module _ {M : Type 0} where
  -- A coroutine that still takes messages from the queue, or will.
  abbrev pub live_of : Task M → ℕ
  live_of (write_spawned b) = 1
  live_of (delayed m) = 1
  live_of (writing m) = 1
  live_of _ = 0

  -- A coroutine whose loop the signal has ended, or will end.
  abbrev pub halted : Task M → Bool → ℕ
  halted running c = 0
  halted read_spawned c = 0
  halted _ c = bit c

  abbrev pub halts : Session M → ℕ
  halts s = sum_by (λ f. halted f.task f.cancelled) s.frames

  -- A step that takes no message and ends no writer.
  pub record Keeps (s t : Session M) : Type 0 where
    pub ready : t.session_ready ≡ s.session_ready
    pub queue : t.message_queue ≡ s.message_queue
    pub lost : t.lost ≡ s.lost
    pub live : tally live_of t ≡ tally live_of s
    pub halts_le : halts s ≤ halts t

  halts-put :
      (i : ℕ) (f g : Frame M) (s : Session M)
      → get_elem? s.frames i ≡ some f
      → halts (put_frame i g s) + halted f.task f.cancelled ≡ halts s + halted g.task g.cancelled
  halts-put i f g s e = sum_by-set (λ f. halted f.task f.cancelled) s.frames i f g e

  halted-le : (t : Task M) (c : Bool) → halted t c ≤ halted t true
  halted-le running c = omega arith
  halted-le read_spawned c = omega arith
  halted-le _ true = omega arith
  halted-le _ false = omega arith

  pub put-Keeps :
      (i : ℕ) (f g : Frame M) (s : Session M)
      → get_elem? s.frames i ≡ some f
      → live_of f.task ≡ live_of g.task
      → halted f.task f.cancelled ≤ halted g.task g.cancelled
      → Keeps s (put_frame i g s)
  put-Keeps i f g s e l h = record {
    ready = refl;
    queue = refl;
    lost = refl;
    live = omega (arith, tally-put live_of i f g s e);
    halts_le = omega (arith, halts-put i f g s e);
  }

  pub Keeps_trans : (s t u : Session M) → Keeps s t → Keeps t u → Keeps s u
  Keeps_trans s t u a b = record {
    ready = b.ready ∙ a.ready;
    queue = b.queue ∙ a.queue;
    lost = b.lost ∙ a.lost;
    live = b.live ∙ a.live;
    halts_le = omega (arith, a.halts_le, b.halts_le);
  }

  pub Keeps_refl : (s : Session M) → Keeps s s
  Keeps_refl s = record {
    ready = refl;
    queue = refl;
    lost = refl;
    live = refl;
    halts_le = omega arith;
  }

  pub emit-Keeps : (s : Session M) → Keeps s (emit s)
  emit-Keeps s = elim (emit-cases s) [
    | inl (inl e) ↦ rw e (Keeps_refl s)
    | inl (inr e) ↦
        rw e
          (record { ready = refl; queue = refl; lost = refl; live = refl; halts_le = omega arith })
    | inr (i, f, g, live, e) ↦
        rw e (put-Keeps i f (record f { cancelled = true }) s g refl (halted-le f.task f.cancelled))
  ]

  -- The promise and the state of the stream do not count.
  closing : (s t : Session M) → Keeps s t → Keeps s (record t { closed = true; read_done = true })
  closing s t k = record {
    ready = k.ready;
    queue = k.queue;
    lost = k.lost;
    live = k.live;
    halts_le = k.halts_le;
  }

  pub end_read-Keeps :
      (i : ℕ) (c : Bool) (s : Session M)
      → get_elem? s.frames i ≡ some (record { task = reading; cancelled = c })
      → Keeps s (end_read i s)
  unfolding end_read
  end_read-Keeps i c s e = elim (Option-cases (get_elem? (emit s).frames i)) [
    | inl e' ↦ rw (end_read, e') (emit-Keeps s)
    | inr (f, e') ↦
        rw (end_read, e')
          (let t = emit-task s i (record { task = reading; cancelled = c }) f e e' in
            Keeps_trans s (emit s) _ (emit-Keeps s) (
              closing (emit s) (put_frame i (record f { task = ended }) (emit s)) (
                put-Keeps i f (record f { task = ended }) (emit s) e' (rw t refl)
                  (rw t (omega arith)))))
  ]

  pub slotted : (i : ℕ) (s t : Session M) → Keeps s t → Keeps s (record t { slot = some i })
  slotted i s t k = record {
    ready = k.ready;
    queue = k.queue;
    lost = k.lost;
    live = k.live;
    halts_le = k.halts_le;
  }

  pub deliver-Keeps : (bytes : List ℕ) (s : Session M) → Keeps s (deliver session_rw bytes s)
  deliver-Keeps [] s = Keeps_refl s
  deliver-Keeps (b ∷ bytes) s = record {
    ready = refl;
    queue = refl;
    lost = refl;
    live = refl;
    halts_le = omega arith;
  }

  pub deliver-frames :
      (bytes : List ℕ) (s : Session M) → (deliver session_rw bytes s).frames ≡ s.frames
  deliver-frames [] s = refl
  deliver-frames (b ∷ bytes) s = refl
