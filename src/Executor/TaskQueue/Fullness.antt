-- ===== src/Executor/TaskQueue/Fullness.antt =====
-- What the number of a cell that is less than a position, or than the next one, says of the queue.
use edge_orchestrator_ai.Prelude.{
  ℕ, zero, suc, ◌+◌, ◌%◌, ◌^◌, ◌≤◌, ◌<◌, ◌≡◌, sym, subst, inl, inr, true, arith, dec_lt, ltb→lt,
  lt→ltb, ◌⊎◌, refl,
}
use edge_orchestrator_ai.Prelude.Words.{u64_mod, add64, add64_lem, signed_lt}
use edge_orchestrator_ai.Executor.TaskQueue.{System}
use edge_orchestrator_ai.Executor.TaskQueue.Invariant.{
  Stage, untouched, filling, full, draining, done, At, Inv, sequence_at, value_at, pushed_at, Fills,
  Drains,
}
use edge_orchestrator_ai.Executor.TaskQueue.Exchanges.{Small}
use edge_orchestrator_ai.Executor.TaskQueue.Releases.{number_lap}

signed_lt_lem : (a b : ℕ) → a < 2 ^ 63 → b < 2 ^ 63 → signed_lt a b ≡ true → a < b
signed_lt_lem a b h k e = omega (arith, ltb→lt ((a + 2 ^ 63) % u64_mod) ((b + 2 ^ 63) % u64_mod) e)

lt-signed_lt : (a b : ℕ) → b < 2 ^ 63 → a < b → signed_lt a b ≡ true
lt-signed_lt a b k h = lt→ltb ((a + 2 ^ 63) % u64_mod) ((b + 2 ^ 63) % u64_mod) (omega arith)

module _ {A : Type 0} {s : System A} {stage : ℕ → Stage} (inv : Inv stage s) where
  open inv use {lap, order, bounded, at, free, owned}

  record Numbers (p : ℕ) : Type 0 where
    low : p < s.queue.enqueue_pos → p ≤ sequence_at s p
    popped : p < s.queue.dequeue_pos → p < sequence_at s p
    high : sequence_at s p ≤ s.queue.dequeue_pos + s.queue.capacity

  -- In the present lap.
  present :
      (p : ℕ) (g : Stage)
      → s.queue.dequeue_pos ≤ p
      → p < s.queue.dequeue_pos + s.queue.capacity
      → At s p g
      → Numbers p
  present p untouched l k a = elim (free p a.0 k) [
    | inl numbered ↦ record {
      low = λ h. omega (arith, numbered);
      popped = λ h. absurd (omega (arith, h, l));
      high = omega (arith, numbered, k);
    }
    | inr (q, t, e, m) ↦
        let d = subst (At s q) m (at q) in
        let lapped = number_lap inv 0 q p (sym e) in
        record {
          low = λ h. absurd (omega (arith, h, a.0));
          popped = λ h. absurd (omega (arith, h, l));
          high = omega (arith, lapped, d.numbered, d.high);
        }
  ]
  present p (filling t) l k a = record {
    low = λ h. omega (arith, a.numbered);
    popped = λ h. absurd (omega (arith, h, l));
    high = omega (arith, a.numbered, k);
  }
  present p full l k a = record {
    low = λ h. omega (arith, a.numbered);
    popped = λ h. absurd (omega (arith, h, l));
    high = omega (arith, a.numbered, k);
  }
  present p (draining t) l k a = absurd (omega (arith, a.high, l))
  present p done l k a = absurd (omega (arith, a.0, l))

  -- In an earlier lap, from the position a lap later.
  earlier : (p : ℕ) → p < s.queue.dequeue_pos → Numbers (p + s.queue.capacity) → Numbers p
  earlier p h later = record {
    low = λ k. omega (arith, above);
    popped = λ k. above;
    high = omega (arith, later.high, lapped);
  }
    where
      lapped : sequence_at s (p + s.queue.capacity) ≡ sequence_at s p
      lapped = number_lap inv 0 p (p + s.queue.capacity) (omega arith)

      above : p < sequence_at s p
      above = elim (dec_lt (p + s.queue.capacity) s.queue.enqueue_pos) [
        | yes claimed ↦ omega (arith, later.low claimed, lapped, lap)
        | no unclaimed ↦
            elim (free (p + s.queue.capacity) (omega (arith, unclaimed)) (omega (arith, h))) [
              | inl numbered ↦ omega (arith, numbered, lapped, lap)
              | inr (q, t, e, m) ↦
                  let d = subst (At s q) m (at q) in
                  let again = number_lap inv 0 q (p + s.queue.capacity) (sym e) in
                  omega (arith, lapped, again, d.numbered, e)
            ]
      ]

  numbers :
      (k p : ℕ)
      → s.queue.dequeue_pos ≤ p + k
      → p < s.queue.dequeue_pos + s.queue.capacity
      → Numbers p
  numbers zero p h i = present p (stage p) (omega (arith, h)) i (at p)
  numbers (suc k) p h i = elim (dec_lt p s.queue.dequeue_pos) [
    | yes before ↦
        earlier p before
          (numbers k (p + s.queue.capacity) (omega (arith, h, lap)) (omega (arith, before)))
    | no now ↦ present p (stage p) (omega (arith, now)) i (at p)
  ]

  -- The queue is full, or a thread takes the value of the last lap out of the cell.
  abbrev pub Held : ℕ → Type 0
  Held pos =
      (s.queue.enqueue_pos ≡ s.queue.dequeue_pos + s.queue.capacity)
      ⊎ ((q : ℕ) × (t : ℕ) × (q + s.queue.capacity ≡ pos)
          × Drains (pushed_at s q) (value_at s q) q (s.pc t))

  -- The queue is empty, or a thread puts the next value into the cell.
  abbrev pub Awaited : ℕ → Type 0
  Awaited pos =
      (s.queue.enqueue_pos ≡ s.queue.dequeue_pos)
      ⊎ ((t : ℕ) × Fills (pushed_at s pos) (value_at s pos) pos (s.pc t))

  pub push-Held :
      (pos : ℕ)
      → Small s
      → pos ≤ s.queue.enqueue_pos
      → signed_lt (sequence_at s pos) pos ≡ true
      → (pos ≡ s.queue.enqueue_pos) × Held pos
  push-Held pos small h less = elim (dec_lt pos (s.queue.dequeue_pos + s.queue.capacity)) [
    | yes inside ↦
        let n = numbers s.queue.dequeue_pos pos (omega arith) inside in
        let below =
          signed_lt_lem (sequence_at s pos) pos (omega (arith, n.high, small, order))
            (omega (arith, h, small)) less in
        let now : pos ≡ s.queue.enqueue_pos = claimed pos h n below in
        (
          now,
          elim (free pos (omega (arith, now)) inside) [
            | inl numbered ↦ absurd (omega (arith, numbered, below))
            | inr (q, t, e, m) ↦ inr (q, t, e, (subst (At s q) m (at q)).owner)
          ],
        )
    | no outside ↦ (omega (arith, outside, h, bounded), inl (omega (arith, outside, h, bounded)))
  ]
    where
      claimed :
          (p : ℕ)
          → p ≤ s.queue.enqueue_pos
          → Numbers p
          → sequence_at s p < p
          → p ≡ s.queue.enqueue_pos
      claimed p h n below = elim (dec_lt p s.queue.enqueue_pos) [
        | yes early ↦ absurd (omega (arith, n.low early, below))
        | no late ↦ omega (arith, h, late)
      ]

  -- In a full queue the value of the last lap has not been taken.
  kept :
      (p : ℕ) (g : Stage)
      → s.queue.dequeue_pos ≡ p
      → p < s.queue.enqueue_pos
      → At s p g
      → sequence_at s p ≤ p + 1
  kept p untouched e h a = absurd (omega (arith, a.0, h))
  kept p (filling t) e h a = omega (arith, a.numbered)
  kept p full e h a = omega (arith, a.numbered)
  kept p (draining t) e h a = absurd (omega (arith, a.high, e))
  kept p done e h a = absurd (omega (arith, a.0, e))

  pub full-less :
      (pos : ℕ)
      → Small s
      → pos ≤ s.queue.enqueue_pos
      → pos ≡ s.queue.dequeue_pos + s.queue.capacity
      → (sequence_at s pos < pos) × (signed_lt (sequence_at s pos) pos ≡ true)
  full-less pos small h e =
      (below, lt-signed_lt (sequence_at s pos) pos (omega (arith, h, small)) below)
    where
      below : sequence_at s pos < pos
      below =
          let last =
            kept s.queue.dequeue_pos (stage s.queue.dequeue_pos) refl (omega (arith, h, e, lap))
              (at s.queue.dequeue_pos) in
          let lapped = number_lap inv 0 s.queue.dequeue_pos pos e in
          omega (arith, last, lapped, lap, e)

  unfilled :
      (p : ℕ) (g : Stage) → s.queue.dequeue_pos ≡ p → sequence_at s p < p + 1 → At s p g → Awaited p
  unfilled p untouched e below a = inl (omega (arith, e, a.0, order))
  unfilled p (filling t) e below a = inr (t, a.owner)
  unfilled p full e below a = absurd (omega (arith, a.numbered, below))
  unfilled p (draining t) e below a = absurd (omega (arith, a.high, e))
  unfilled p done e below a = absurd (omega (arith, a.0, e))

  pub pop-Awaited :
      (pos : ℕ)
      → Small s
      → pos ≤ s.queue.dequeue_pos
      → signed_lt (sequence_at s pos) (add64 pos 1) ≡ true
      → (pos ≡ s.queue.dequeue_pos) × Awaited pos
  pop-Awaited pos small h less = elim (dec_lt pos s.queue.dequeue_pos) [
    | yes gone ↦ absurd (omega (arith, n.popped gone, below))
    | no now ↦
        let e : s.queue.dequeue_pos ≡ pos = omega (arith, h, now) in
        (sym e, unfilled pos (stage pos) e below (at pos))
  ]
    where
      n : Numbers pos
      n = numbers s.queue.dequeue_pos pos (omega arith) (omega (arith, h, lap))

      next : add64 pos 1 ≡ pos + 1
      next = add64_lem pos 1 (omega (arith, h, small, order))

      below : sequence_at s pos < pos + 1
      below =
          signed_lt_lem (sequence_at s pos) (pos + 1) (omega (arith, n.high, small, order))
            (omega (arith, h, small, order, lap))
            (subst (λ m. signed_lt (sequence_at s pos) m ≡ true) next less)
