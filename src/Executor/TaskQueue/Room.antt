-- ===== src/Executor/TaskQueue/Room.antt =====
-- What the number in a cell shows of its position, before a thread claims it.
use edge_orchestrator_ai.Prelude.{
  ℕ, ◌+◌, ◌≤◌, ◌<◌, ◌≡◌, refl, sym, subst, inl, inr, [], ℕ_discrete, arith,
}
use edge_orchestrator_ai.Executor.TaskQueue.{System}
use edge_orchestrator_ai.Executor.TaskQueue.Invariant.{
  Stage, untouched, filling, full, draining, done, Full, At, Free, CanPush, CanPop, Inv,
  sequence_at,
}
use edge_orchestrator_ai.Executor.TaskQueue.Releases.{number_lap}

module _ {A : Type 0} {s : System A} {stage : ℕ → Stage} (inv : Inv stage s) (t : ℕ) where
  open inv use {lap, order, bounded, counted, at, free, owned}

  -- A position that is not claimed has not been returned, and is in no other stage.
  pub above-untouched :
      (p : ℕ) (g : Stage)
      → s.queue.enqueue_pos ≤ p
      → At s p g
      → (g ≡ untouched) × (s.returned p ≡ [])
  above-untouched p untouched h a = (refl, a.1)
  above-untouched p (filling j) h a = absurd (omega (arith, a.high))
  above-untouched p full h a = absurd (omega (arith, a.high))
  above-untouched p (draining j) h a = absurd (omega (arith, a.high, order))
  above-untouched p done h a = absurd (omega (arith, a.0, order))

  -- The last position that is not popped is being filled, or full.
  low-numbered :
      (p : ℕ) (g : Stage)
      → s.queue.dequeue_pos ≤ p
      → p < s.queue.enqueue_pos
      → At s p g
      → sequence_at s p ≤ p + 1
  low-numbered p untouched l h a = absurd (omega (arith, a.0))
  low-numbered p (filling j) l h a = omega (arith, a.numbered)
  low-numbered p full l h a = omega (arith, a.numbered)
  low-numbered p (draining j) l h a = absurd (omega (arith, a.high))
  low-numbered p done l h a = absurd (omega (arith, a.0))

  -- A free cell at the position to push to shows that the queue is not full.
  pub CanPush-room : CanPush s → s.queue.enqueue_pos < s.queue.dequeue_pos + s.queue.capacity
  CanPush-room can =
      elim (ℕ_discrete s.queue.enqueue_pos (s.queue.dequeue_pos + s.queue.capacity)) [
        | yes e ↦ absurd (
            let lapped = number_lap inv t s.queue.dequeue_pos s.queue.enqueue_pos e in
            let low =
              low-numbered s.queue.dequeue_pos (stage s.queue.dequeue_pos) (omega arith)
                (omega (arith, e, lap)) (at s.queue.dequeue_pos) in
            omega (arith, lapped, low, can, e, lap))
        | no n ↦ omega (arith, n, bounded)
      ]

  -- A filled cell at the position to pop from holds a value.
  pub CanPop-Full :
      (g : Stage)
      → stage s.queue.dequeue_pos ≡ g
      → At s s.queue.dequeue_pos g
      → CanPop s
      → (stage s.queue.dequeue_pos ≡ full) × Full s s.queue.dequeue_pos
  CanPop-Full untouched e a can = absurd (from (free s.queue.dequeue_pos a.0 (omega (arith, lap))))
    where
      from : Free s stage s.queue.dequeue_pos → ⊥
      from (inl numbered) = omega (arith, numbered, can)
      from (inr (q, j, e', m)) =
          let lapped = number_lap inv t q s.queue.dequeue_pos (sym e') in
          let a' = subst (At s q) m (at q) in omega (arith, lapped, can, a'.numbered, e', lap)
  CanPop-Full (filling j) e a can = absurd (omega (arith, a.numbered, can))
  CanPop-Full full e a can = (e, a)
  CanPop-Full (draining j) e a can = absurd (omega (arith, a.high))
  CanPop-Full done e a can = absurd (omega (arith, a.0))
