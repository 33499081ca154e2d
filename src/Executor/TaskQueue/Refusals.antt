-- ===== src/Executor/TaskQueue/Refusals.antt =====
-- When try_push and try_pop return false.
use edge_orchestrator_ai.Prelude.{
  ℕ, ◌+◌, ◌^◌, ◌<◌, ◌≡◌, sym, subst, true, List, arith, length, ◌⊎◌, Bool, false, refl, ◌∙◌, ◌==◌,
}
use edge_orchestrator_ai.Prelude.Words.{add64, signed_lt}
use edge_orchestrator_ai.Executor.TaskQueue.{
  idle, push_seen, push_claimed, Pc, update, access, push_exchanged, push_unequal, push_compared,
  push_loaded, pop_loaded, QueueEvent, System, make_system, events, queue_capacity, cell,
}
use edge_orchestrator_ai.Executor.TaskQueue.Invariant.{Owns, value_at, pushed_at, Fills, Drains}
use edge_orchestrator_ai.Executor.TaskQueue.Releases.{update_here}
use edge_orchestrator_ai.Executor.TaskQueue.Histories.{run-Inv}
use edge_orchestrator_ai.Executor.TaskQueue.Fullness.{push-Held, pop-Awaited, full-less}

module _ {A : Type 0} where
  -- After the number has been read, try_push returns only if it is less than the position.
  returned-less :
      (v : A) (pos seq t : ℕ) (spurious : Bool) (later : System A)
      → (access (push_seen v pos seq) t spurious later).pc t ≡ idle
      → signed_lt seq pos ≡ true
  unfolding access
  returned-less v pos seq t spurious later = compared (seq == pos)
    where
      here : (next : Pc A) → update later.pc t next t ≡ idle → next ≡ idle
      here next e = sym (update_here later.pc t next) ∙ e

      exchanged :
          (b : Bool) → (push_exchanged b t v pos later).pc t ≡ idle → signed_lt seq pos ≡ true
      exchanged true e = let wrong = here (push_claimed v pos) e in absurd cc
      exchanged false e = let wrong = here (push_loaded v later.queue.enqueue_pos) e in absurd cc

      unequal :
          (b : Bool)
          → signed_lt seq pos ≡ b
          → (push_unequal b t v later).pc t ≡ idle
          → signed_lt seq pos ≡ true
      unequal true less e = less
      unequal false less e = let wrong = here (push_loaded v later.queue.enqueue_pos) e in absurd cc

      compared :
          (b : Bool)
          → (push_compared b t v pos seq spurious later).pc t ≡ idle
          → signed_lt seq pos ≡ true
      compared true e = exchanged _ e
      compared false e = unequal (signed_lt seq pos) refl e

  less-returned :
      (v : A) (pos seq t : ℕ) (spurious : Bool) (later : System A)
      → seq < pos
      → signed_lt seq pos ≡ true
      → (access (push_seen v pos seq) t spurious later).pc t ≡ idle
  unfolding access
  less-returned v pos seq t spurious later h less = rw (unequal, less) (update_here later.pc t idle)
    where
      unequal : (seq == pos) ≡ false
      unequal = ground arith

  -- After any interleaving of the accesses of any number of threads that push to and pop from a
  -- new queue, with exchanges that may fail for no reason, as long as the number of events and
  -- the capacity add up to less than 2 ^ 63, when try_push at a position has yet to read the
  -- number of its cell, and whatever else happens between that read and the comparison: if the
  -- comparison makes try_push return, then at the read its position was the next one to push to,
  -- and the queue was full or a thread was taking the value of the last lap out of the cell; and
  -- if the position was the capacity more than the next one to pop from, the comparison makes it
  -- return.
  pub try_push-refused :
      (es : List (QueueEvent A)) (n t : ℕ) (v : A) (pos : ℕ) (spurious : Bool) (later : System A)
      → length es + queue_capacity n < 2 ^ 63
      → (events es (make_system n)).pc t ≡ push_loaded v pos
      → ((access
                (push_seen v pos ((cell (events es (make_system n)).queue pos).sequence))
                t
                spurious
                later).pc
              t
            ≡ idle
          → (pos ≡ (events es (make_system n)).queue.enqueue_pos)
            × (((events es (make_system n)).queue.enqueue_pos
                  ≡ (events es (make_system n)).queue.dequeue_pos
                    + (events es (make_system n)).queue.capacity)
                ⊎ ((q : ℕ) × (u : ℕ) × (q + (events es (make_system n)).queue.capacity ≡ pos)
                    × Drains
                        (pushed_at (events es (make_system n)) q)
                        (value_at (events es (make_system n)) q)
                        q
                        ((events es (make_system n)).pc u))))
        × (pos
              ≡ (events es (make_system n)).queue.dequeue_pos
                + (events es (make_system n)).queue.capacity
            → (access
                  (push_seen v pos ((cell (events es (make_system n)).queue pos).sequence))
                  t
                  spurious
                  later).pc
                t
              ≡ idle)
  try_push-refused es n t v pos spurious later h at =
      let (stage, inv, small) = run-Inv es n h in
      let near = subst (Owns (events es (make_system n)) stage t) at (inv.owned t) in
      (
        λ returned. push-Held inv pos small near (returned-less v pos _ t spurious later returned),
        λ full.
            let (below, less) = full-less inv pos small near full in
            less-returned v pos _ t spurious later below less,
      )

  -- The same of try_pop: its position is the next one to pop from, and the queue is empty or a thread is putting
  -- that position's value into the cell.
  pub try_pop-refused :
      (es : List (QueueEvent A)) (n t pos : ℕ)
      → length es + queue_capacity n < 2 ^ 63
      → (events es (make_system n)).pc t ≡ pop_loaded pos
      → signed_lt (cell (events es (make_system n)).queue pos).sequence (add64 pos 1) ≡ true
      → (pos ≡ (events es (make_system n)).queue.dequeue_pos)
        × (((events es (make_system n)).queue.enqueue_pos
              ≡ (events es (make_system n)).queue.dequeue_pos)
            ⊎ ((u : ℕ) × Fills
                  (pushed_at (events es (make_system n)) pos)
                  (value_at (events es (make_system n)) pos)
                  pos
                  ((events es (make_system n)).pc u)))
  try_pop-refused es n t pos h at less =
      let (stage, inv, small) = run-Inv es n h in
      pop-Awaited inv pos small (subst (Owns (events es (make_system n)) stage t) at (inv.owned t))
        less
