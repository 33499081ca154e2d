-- ===== src/Executor/TaskQueue/Histories.antt =====
-- What the queue gives back after any sequence of events from a new queue.
use edge_orchestrator_ai.Prelude.{
  ℕ, ◌+◌, ◌^◌, ◌≤◌, ◌<◌, ◌≡◌, ◌⊎◌, refl, subst, inl, inr, List, [], ◌∷◌, get_elem?, length, arith,
}
use native.Mathlib.Nat.{mod-eq_of_lt}
use edge_orchestrator_ai.Executor.TaskQueue.{
  idle, QueueEvent, System, make_system, events, queue_capacity, cell,
}
use edge_orchestrator_ai.Executor.TaskQueue.Invariant.{
  Stage, untouched, filling, full, draining, done, At, Inv, sequence_at, pushed_at, value_at, Fills,
  Drains,
}
use edge_orchestrator_ai.Executor.TaskQueue.Exchanges.{Small}
use edge_orchestrator_ai.Executor.TaskQueue.Runs.{events-Inv}
use edge_orchestrator_ai.Executor.TaskQueue.Capacity.{lap-queue_capacity}

module _ {A : Type 0} where
  make_system-Inv : (n : ℕ) → Inv {A = A} (λ p. untouched) (make_system n)
  make_system-Inv n = record {
    lap = lap-queue_capacity n;
    order = omega arith;
    bounded = omega arith;
    counted = refl;
    at = λ p. (omega arith, refl);
    free = λ p l k. inl (mod-eq_of_lt {n = p} {m = queue_capacity n} (omega (arith, k)));
    owned = λ t. tt;
  }

  pub run-Inv :
      (es : List (QueueEvent A)) (n : ℕ)
      → length es + queue_capacity n < 2 ^ 63
      → (stage : ℕ → Stage) × Inv stage (events es (make_system n))
        × Small (events es (make_system n))
  run-Inv es n h =
      events-Inv es (make_system n) (λ p. untouched) (make_system-Inv n) (omega (arith, h))

  given :
      (s : System A) (p : ℕ) (g : Stage)
      → At s p g
      → (s.returned p ≡ []) ⊎ ((p < s.queue.dequeue_pos) × (s.returned p ≡ pushed_at s p ∷ []))
  given s p untouched a = inl a.1
  given s p (filling t) a = inl a.unreturned
  given s p full a = inl a.unreturned
  given s p (draining t) a = inl a.unreturned
  given s p done a = inr a

  -- After any interleaving of the accesses of any number of threads that push to and pop from a
  -- new queue, with exchanges that may fail for no reason, as long as the number of events and
  -- the capacity add up to less than 2 ^ 63: as many values have been pushed as positions are
  -- claimed, at most the capacity more than have been claimed by pops, and what the pops of a
  -- position have returned is nothing or, once and only if the position has been claimed by a
  -- pop, the value whose push claimed that position, in the order of the claims.
  pub events-once :
      (es : List (QueueEvent A)) (n : ℕ)
      → length es + queue_capacity n < 2 ^ 63
      → (length (events es (make_system n)).pushed ≡ (events es (make_system n)).queue.enqueue_pos)
        × ((events es (make_system n)).queue.dequeue_pos
            ≤ (events es (make_system n)).queue.enqueue_pos)
        × ((events es (make_system n)).queue.enqueue_pos
            ≤ (events es (make_system n)).queue.dequeue_pos
              + (events es (make_system n)).queue.capacity)
        × ((p : ℕ)
            → ((events es (make_system n)).returned p ≡ [])
              ⊎ ((p < (events es (make_system n)).queue.dequeue_pos)
                  × ((events es (make_system n)).returned p
                      ≡ get_elem? (events es (make_system n)).pushed p ∷ [])))
  events-once es n h =
      let (stage, inv, small) = run-Inv es n h in
      (
        inv.counted,
        inv.order,
        inv.bounded,
        λ p. given (events es (make_system n)) p (stage p) (inv.at p),
      )

  -- The position is held by no thread.
  settled :
      (s : System A) (p : ℕ) (g : Stage)
      → ((t : ℕ) → s.pc t ≡ idle)
      → s.queue.dequeue_pos ≤ s.queue.enqueue_pos
      → At s p g
      → (p < s.queue.dequeue_pos → s.returned p ≡ pushed_at s p ∷ [])
        × (s.queue.dequeue_pos ≤ p
            → p < s.queue.enqueue_pos
            → (s.returned p ≡ []) × (sequence_at s p ≡ p + 1) × (value_at s p ≡ pushed_at s p))
  settled s p untouched quiet o a =
      (λ l. absurd (omega (arith, l, o, a.0)), λ l k. absurd (omega (arith, k, a.0)))
  settled s p (filling t) quiet o a = absurd (subst (Fills _ _ p) (quiet t) a.owner)
  settled s p full quiet o a =
      (λ l. absurd (omega (arith, l, a.low)), λ l k. (a.unreturned, a.numbered, a.value))
  settled s p (draining t) quiet o a = absurd (subst (Drains _ _ p) (quiet t) a.owner)
  settled s p done quiet o a = (λ l. a.1, λ l k. absurd (omega (arith, l, a.0)))

  -- After any interleaving of the accesses of any number of threads that push to and pop from a
  -- new queue, with exchanges that may fail for no reason, as long as the number of events and
  -- the capacity add up to less than 2 ^ 63, when no thread is in a call: every position below
  -- the one to pop from has returned its value, once, and every pushed value from there on is in
  -- its cell and has not been returned.
  pub events-settled :
      (es : List (QueueEvent A)) (n : ℕ)
      → length es + queue_capacity n < 2 ^ 63
      → ((t : ℕ) → (events es (make_system n)).pc t ≡ idle)
      → (p : ℕ)
      → (p < (events es (make_system n)).queue.dequeue_pos
          → (events es (make_system n)).returned p
            ≡ get_elem? (events es (make_system n)).pushed p ∷ [])
        × ((events es (make_system n)).queue.dequeue_pos ≤ p
            → p < length (events es (make_system n)).pushed
            → ((events es (make_system n)).returned p ≡ [])
              × ((cell (events es (make_system n)).queue p).value
                  ≡ get_elem? (events es (make_system n)).pushed p))
  events-settled es n h quiet p =
      let (stage, inv, small) = run-Inv es n h in
      let both = settled (events es (make_system n)) p (stage p) quiet inv.order (inv.at p) in
      (both.0, λ l k. let r = both.1 l (omega (arith, k, inv.counted)) in (r.0, r.2))
