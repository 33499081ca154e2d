-- ===== src/Executor/TaskQueue/Frees.antt =====
-- A thread that has taken the value makes the cell free for the next lap.
use edge_orchestrator_ai.Prelude.{
  ℕ, ◌+◌, ◌%◌, ◌≤◌, ◌<◌, ◌≡◌, ◌≢◌, sym, ◌∙◌, subst, ap, inl, inr, List, [], ◌∷◌, ◌++◌, Option,
  ℕ_discrete, arith, dec_lt,
}
use edge_orchestrator_ai.Executor.TaskQueue.{pop_read, Cell, System, update}
use edge_orchestrator_ai.Executor.TaskQueue.Positions.{mod-apart, mod-lap}
use edge_orchestrator_ai.Executor.TaskQueue.Invariant.{
  Stage, draining, done, Drains, Draining, At, Free, CanPush, CanPop, Owns, Inv, sequence_at,
  value_at, pushed_at,
}
use edge_orchestrator_ai.Executor.TaskQueue.Moves.{update_at, Only, cell_apart, cell_here}
use edge_orchestrator_ai.Executor.TaskQueue.Releases.{
  update_here, update_away, numbered_cell, released, released-Inv, kept_number, number_lap,
}

module _ {A : Type 0} {s : System A} {stage : ℕ → Stage} (inv : Inv stage s) (t : ℕ) where
  open inv use {lap, order, bounded, counted, at, free, owned}

  -- try_pop makes the cell free for the next lap.
  pub release-Inv :
      (p : ℕ) (out : Option A)
      → s.pc t ≡ pop_read p out
      → Inv (update stage p done) (
          released inv t p
            (p + s.queue.capacity)
            done
            (update s.returned p (s.returned p ++ (out ∷ []))))
  release-Inv p out h =
      released-Inv inv t p seq done returned' near early only
        (λ q n. update_away s.returned p (s.returned p ++ (out ∷ [])) q (λ e. n (sym e)))
        (λ j e. absurd (let f = sym e ∙ mine in cc)) (λ j e. let f = sym e ∙ mine in cc) here free'
        push pop
    where
      seq : ℕ
      seq = p + s.queue.capacity

      returned' : ℕ → List (Option A)
      returned' = update s.returned p (s.returned p ++ (out ∷ []))

      s' : System A
      s' = released inv t p seq done returned'

      mine : stage p ≡ draining t
      mine = subst (Owns s stage t) h (owned t)

      a : Draining s p t
      a = subst (At s p) mine (at p)

      near : s.queue.enqueue_pos ≤ p + s.queue.capacity
      near = a.low

      early : p < s.queue.enqueue_pos
      early = omega (arith, a.high, order)

      only : Only p (s.pc t)
      only =
          subst (Only p) (sym h)
            (record { fills = λ q x v f. absurd f; drains = λ q x v f. sym f.0 })

      here : At s' p done
      here = (
        a.high,
        update_here s.returned p (s.returned p ++ (out ∷ []))
            ∙ ap (λ l. l ++ (out ∷ [])) a.unreturned
            ∙ ap (λ x. x ∷ []) (subst (Drains (pushed_at s p) (value_at s p) p) h a.owner).1,
      )

      next_number : (q : ℕ) → q ≡ p + s.queue.capacity → sequence_at s' q ≡ q
      next_number q e = number_lap' ∙ sym e
        where
          number_lap' : sequence_at s' q ≡ seq
          number_lap' =
              ap (λ i. (s'.queue.cells i).sequence)
                (ap (λ n. n % s.queue.capacity) e ∙ mod-lap s.queue.capacity p (omega (arith, lap)))
              ∙ ap (λ (d : Cell A). d.sequence)
                  (cell_here inv t p (numbered_cell inv t p seq done returned'))

      far_number :
          (q : ℕ)
          → s.queue.enqueue_pos ≤ q
          → q < s.queue.dequeue_pos + s.queue.capacity
          → q ≢ p + s.queue.capacity
          → sequence_at s' q ≡ sequence_at s q
      far_number q l k n = elim (dec_lt q (p + s.queue.capacity)) [
        | yes below ↦
            kept_number inv t p seq q returned' (omega (arith, early, l)) below
              (omega (arith, early, l))
        | no not_below ↦
            ap (λ (c : Cell A). c.sequence)
              (cell_apart inv t p q (numbered_cell inv t p seq done returned') (λ e.
                mod-apart s.queue.capacity (p + s.queue.capacity) q (omega (arith, not_below, n))
                  (omega (arith, k, near, order))
                  (sym e ∙ sym (mod-lap s.queue.capacity p (omega (arith, lap))))))
      ]

      free' :
          (q : ℕ)
          → s.queue.enqueue_pos ≤ q
          → q < s.queue.dequeue_pos + s.queue.capacity
          → Free s' (update stage p done) q
      free' q l k = elim (ℕ_discrete q (p + s.queue.capacity)) [
        | yes e ↦ inl (next_number q e)
        | no n ↦ elim (free q l k) [
          | inl numbered ↦ inl (far_number q l k n ∙ numbered)
          | inr (q', i, e, m) ↦ inr (
            q',
            i,
            e,
            update_at (λ x. x ≡ draining i) stage p done q'
                (λ same_place. absurd (n (sym e ∙ ap (λ j. j + s.queue.capacity) (sym same_place))))
                (λ other. m),
          )
        ]
      ]

      push : CanPush s → CanPush s'
      push can = elim (dec_lt s.queue.enqueue_pos (p + s.queue.capacity)) [
        | yes inside ↦
            kept_number inv t p seq s.queue.enqueue_pos returned' (omega (arith, early)) inside
              (omega (arith, early))
            ∙ can
        | no not_inside ↦ next_number s.queue.enqueue_pos (omega (arith, near, not_inside))
      ]

      pop : CanPop s → CanPop s'
      pop can = elim (dec_lt s.queue.dequeue_pos (p + s.queue.capacity)) [
        | yes inside ↦
            kept_number inv t p seq s.queue.dequeue_pos returned' (omega (arith, a.high)) inside
              (omega (arith, a.high))
            ∙ can
        | no not_inside ↦ absurd (
            let lapped : sequence_at s s.queue.dequeue_pos ≡ sequence_at s p =
              number_lap inv t p s.queue.dequeue_pos (omega (arith, near, not_inside, order)) in
            omega (arith, lapped, can, a.numbered, near, not_inside, order, lap))
      ]
