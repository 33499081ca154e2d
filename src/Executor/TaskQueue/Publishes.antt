-- ===== src/Executor/TaskQueue/Publishes.antt =====
-- A thread that has written the value makes it visible.
use edge_orchestrator_ai.Prelude.{
  ℕ, ◌+◌, ◌≤◌, ◌<◌, ◌≡◌, refl, sym, ◌∙◌, subst, ap, inl, inr, ℕ_discrete, arith, dec_lt,
}
use edge_orchestrator_ai.Executor.TaskQueue.{push_written, Cell, System, update, cell}
use edge_orchestrator_ai.Executor.TaskQueue.Invariant.{
  Stage, filling, full, draining, Fills, Filling, At, Free, CanPush, CanPop, Owns, Inv, sequence_at,
  value_at, pushed_at,
}
use edge_orchestrator_ai.Executor.TaskQueue.Moves.{update_at, Only, cell_here}
use edge_orchestrator_ai.Executor.TaskQueue.Releases.{
  numbered_cell, released, released-Inv, kept_number, number_lap,
}

module _ {A : Type 0} {s : System A} {stage : ℕ → Stage} (inv : Inv stage s) (t : ℕ) where
  open inv use {lap, order, bounded, counted, at, free, owned}

  -- try_push makes the value visible.
  pub publish-Inv :
      (p : ℕ)
      → s.pc t ≡ push_written p
      → Inv (update stage p full) (released inv t p (p + 1) full s.returned)
  publish-Inv p h =
      released-Inv inv t p (p + 1) full s.returned near a.high only (λ q n. refl)
        (λ j e. let f = sym e ∙ mine in cc) (λ j e. absurd (let f = sym e ∙ mine in cc)) here free'
        push pop
    where
      s' : System A
      s' = released inv t p (p + 1) full s.returned

      mine : stage p ≡ filling t
      mine = subst (Owns s stage t) h (owned t)

      a : Filling s p t
      a = subst (At s p) mine (at p)

      near : s.queue.enqueue_pos ≤ p + s.queue.capacity
      near = omega (arith, a.low, bounded)

      only : Only p (s.pc t)
      only =
          subst (Only p) (sym h)
            (record { fills = λ q x v f. sym f.0; drains = λ q x v f. absurd f })

      c : Cell A
      c = numbered_cell inv t p (p + 1) full s.returned

      here_cell : cell s'.queue p ≡ c
      here_cell = cell_here inv t p c

      here : At s' p full
      here = record {
        low = a.low;
        high = a.high;
        numbered = ap (λ (d : Cell A). d.sequence) here_cell;
        value =
            ap (λ (d : Cell A). d.value) here_cell
            ∙ (subst (Fills (pushed_at s p) (value_at s p) p) h a.owner).1;
        unreturned = a.unreturned;
      }

      free' :
          (q : ℕ)
          → s.queue.enqueue_pos ≤ q
          → q < s.queue.dequeue_pos + s.queue.capacity
          → Free s' (update stage p full) q
      free' q l k = elim (free q l k) [
        | inl numbered ↦ inl (
            kept_number inv t p (p + 1) q s.returned (omega (arith, a.high, l))
              (omega (arith, a.low, k)) (omega (arith, a.high, l))
            ∙ numbered)
        | inr (q', i, e, m) ↦ inr (
          q',
          i,
          e,
          update_at (λ x. x ≡ draining i) stage p full q'
              (λ same_place. absurd (let f = sym m ∙ ap stage (sym same_place) ∙ mine in cc))
              (λ n. m),
        )
      ]

      push : CanPush s → CanPush s'
      push can = elim (dec_lt s.queue.enqueue_pos (p + s.queue.capacity)) [
        | yes inside ↦
            kept_number inv t p (p + 1) s.queue.enqueue_pos s.returned (omega (arith, a.high))
              inside (omega (arith, a.high))
            ∙ can
        | no not_inside ↦ absurd (
            let lapped : sequence_at s s.queue.enqueue_pos ≡ sequence_at s p =
              number_lap inv t p s.queue.enqueue_pos (omega (arith, near, not_inside)) in
            omega (arith, lapped, can, a.numbered, near, not_inside, lap))
      ]

      pop : CanPop s → CanPop s'
      pop can = elim (ℕ_discrete s.queue.dequeue_pos p) [
        | yes e ↦
            absurd
              (let here_too = ap (sequence_at s) e in omega (arith, here_too, can, e, a.numbered))
        | no n ↦
            kept_number inv t p (p + 1) s.queue.dequeue_pos s.returned n (omega (arith, a.low, lap))
              (omega (arith, a.high, bounded))
            ∙ can
      ]
