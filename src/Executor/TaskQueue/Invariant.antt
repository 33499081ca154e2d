-- ===== src/Executor/TaskQueue/Invariant.antt =====
-- The stages that a position of the queue goes through, and the invariant that ties them to the cells
-- and to the threads.
use edge_orchestrator_ai.Prelude.{
  ℕ, ◌+◌, ◌≤◌, ◌<◌, ◌≡◌, ◌⊎◌, inl, inr, sym, ◌∙◌, [], ◌∷◌, Option, some, get_elem?, length, arith,
  dec_lt, ap,
}
use edge_orchestrator_ai.Executor.TaskQueue.{
  Pc, idle, push_loaded, push_seen, push_claimed, push_written, pop_loaded, pop_seen, pop_claimed,
  pop_read, System, cell,
}

-- A position is claimed by a thread that fills its cell, holds a value, is claimed by a thread that
-- drains the cell, and is done.
pub data Stage : Type 0 where
  untouched : Stage
  filling : ℕ → Stage
  full : Stage
  draining : ℕ → Stage
  done : Stage

-- The thread is between its claim of p and its release of the cell; x is the value that belongs at p,
-- and v the cell's.
abbrev pub Fills : {A : Type 0} → Option A → Option A → ℕ → Pc A → Type 0
Fills x v p (push_claimed w q) = (q ≡ p) × (x ≡ some w)
Fills x v p (push_written q) = (q ≡ p) × (v ≡ x)
Fills x v p elsewhere = ⊥

abbrev pub Drains : {A : Type 0} → Option A → Option A → ℕ → Pc A → Type 0
Drains x v p (pop_claimed q) = (q ≡ p) × (v ≡ x)
Drains x v p (pop_read q out) = (q ≡ p) × (out ≡ x)
Drains x v p elsewhere = ⊥

module _ {A : Type 0} where
  abbrev pub sequence_at : System A → ℕ → ℕ
  sequence_at s p = (cell s.queue p).sequence

  abbrev pub value_at : System A → ℕ → Option A
  value_at s p = (cell s.queue p).value

  abbrev pub pushed_at : System A → ℕ → Option A
  pushed_at s p = get_elem? s.pushed p

pub record Filling {A : Type 0} (s : System A) (p t : ℕ) : Type 0 where
  pub low : s.queue.dequeue_pos ≤ p
  pub high : p < s.queue.enqueue_pos
  pub numbered : sequence_at s p ≡ p
  pub owner : Fills (pushed_at s p) (value_at s p) p (s.pc t)
  pub unreturned : s.returned p ≡ []

pub record Full {A : Type 0} (s : System A) (p : ℕ) : Type 0 where
  pub low : s.queue.dequeue_pos ≤ p
  pub high : p < s.queue.enqueue_pos
  pub numbered : sequence_at s p ≡ p + 1
  pub value : value_at s p ≡ pushed_at s p
  pub unreturned : s.returned p ≡ []

pub record Draining {A : Type 0} (s : System A) (p t : ℕ) : Type 0 where
  pub low : s.queue.enqueue_pos ≤ p + s.queue.capacity
  pub high : p < s.queue.dequeue_pos
  pub numbered : sequence_at s p ≡ p + 1
  pub owner : Drains (pushed_at s p) (value_at s p) p (s.pc t)
  pub unreturned : s.returned p ≡ []

module _ {A : Type 0} where
  abbrev pub At : System A → ℕ → Stage → Type 0
  At s p untouched = (s.queue.enqueue_pos ≤ p) × (s.returned p ≡ [])
  At s p (filling t) = Filling s p t
  At s p full = Full s p
  At s p (draining t) = Draining s p t
  At s p done = (p < s.queue.dequeue_pos) × (s.returned p ≡ pushed_at s p ∷ [])

  -- The cell of an unclaimed position of this lap is free, or the last lap's value is being taken from
  -- it.
  abbrev pub Free : System A → (ℕ → Stage) → ℕ → Type 0
  Free s stage p =
      (sequence_at s p ≡ p)
      ⊎ ((q : ℕ) × (t : ℕ) × (q + s.queue.capacity ≡ p) × (stage q ≡ draining t))

  abbrev pub CanPush : System A → Type 0
  CanPush s = sequence_at s s.queue.enqueue_pos ≡ s.queue.enqueue_pos

  abbrev pub CanPop : System A → Type 0
  CanPop s = sequence_at s s.queue.dequeue_pos ≡ s.queue.dequeue_pos + 1

  -- What the locals of a thread say: a number that was read at a position is out of date only if the
  -- position has been claimed since.
  abbrev pub Owns : System A → (ℕ → Stage) → ℕ → Pc A → Type 0
  Owns s stage t idle = Unit {0}
  Owns s stage t (push_loaded v pos) = pos ≤ s.queue.enqueue_pos
  Owns s stage t (push_seen v pos seq) =
      (pos ≤ s.queue.enqueue_pos) × (seq ≡ pos → (pos < s.queue.enqueue_pos) ⊎ CanPush s)
  Owns s stage t (push_claimed v pos) = stage pos ≡ filling t
  Owns s stage t (push_written pos) = stage pos ≡ filling t
  Owns s stage t (pop_loaded pos) = pos ≤ s.queue.dequeue_pos
  Owns s stage t (pop_seen pos seq) =
      (pos ≤ s.queue.dequeue_pos) × (seq ≡ pos + 1 → (pos < s.queue.dequeue_pos) ⊎ CanPop s)
  Owns s stage t (pop_claimed pos) = stage pos ≡ draining t
  Owns s stage t (pop_read pos out) = stage pos ≡ draining t

pub record Inv {A : Type 0} (stage : ℕ → Stage) (s : System A) : Type 0 where
  pub lap : 2 ≤ s.queue.capacity
  pub order : s.queue.dequeue_pos ≤ s.queue.enqueue_pos
  pub bounded : s.queue.enqueue_pos ≤ s.queue.dequeue_pos + s.queue.capacity
  pub counted : length s.pushed ≡ s.queue.enqueue_pos
  pub at : (p : ℕ) → At s p (stage p)
  pub free :
      (p : ℕ)
      → s.queue.enqueue_pos ≤ p
      → p < s.queue.dequeue_pos + s.queue.capacity
      → Free s stage p
  pub owned : (t : ℕ) → Owns s stage t (s.pc t)

module _ {A : Type 0} where
  -- A move changes neither the facts of the position p nor, for it, those of the threads.
  pub record Away (s s' : System A) (p : ℕ) : Type 0 where
    pub lap : s'.queue.capacity ≡ s.queue.capacity
    pub later : s.queue.dequeue_pos ≤ s'.queue.dequeue_pos
    pub more : s.queue.enqueue_pos ≤ s'.queue.enqueue_pos
    pub unclaimed : s.queue.dequeue_pos ≤ p → s'.queue.dequeue_pos ≤ p
    pub unpushed : s.queue.enqueue_pos ≤ p → s'.queue.enqueue_pos ≤ p
    pub within :
        s.queue.enqueue_pos ≤ p + s.queue.capacity
        → sequence_at s p ≡ p + 1
        → s'.queue.enqueue_pos ≤ p + s.queue.capacity
    pub sequence :
        s.queue.enqueue_pos ≤ p + s.queue.capacity
        → p < s.queue.enqueue_pos
        → sequence_at s' p ≡ sequence_at s p
    pub value :
        s.queue.enqueue_pos ≤ p + s.queue.capacity
        → p < s.queue.enqueue_pos
        → value_at s' p ≡ value_at s p
    pub pushed : p < s.queue.enqueue_pos → pushed_at s' p ≡ pushed_at s p
    pub returned : s'.returned p ≡ s.returned p
    pub fills : (j : ℕ) (x v : Option A) → Fills x v p (s.pc j) → Fills x v p (s'.pc j)
    pub drains : (j : ℕ) (x v : Option A) → Drains x v p (s.pc j) → Drains x v p (s'.pc j)

  Fills-carries :
      {x x' v v' : Option A} (p : ℕ) (c : Pc A) → x' ≡ x → v' ≡ v → Fills x v p c → Fills x' v' p c
  Fills-carries p (push_claimed w q) e f (same, here) = (same, e ∙ here)
  Fills-carries p (push_written q) e f (same, here) = (same, f ∙ here ∙ sym e)
  Fills-carries p elsewhere e f h = absurd h

  Drains-carries :
      {x x' v v' : Option A} (p : ℕ) (c : Pc A)
      → x' ≡ x
      → v' ≡ v
      → Drains x v p c
      → Drains x' v' p c
  Drains-carries p (pop_claimed q) e f (same, here) = (same, f ∙ here ∙ sym e)
  Drains-carries p (pop_read q out) e f (same, here) = (same, here ∙ sym e)
  Drains-carries p elsewhere e f h = absurd h

  pub At-keeps :
      {s s' : System A} (p : ℕ) (g : Stage)
      → s.queue.dequeue_pos ≤ s.queue.enqueue_pos
      → s.queue.enqueue_pos ≤ s.queue.dequeue_pos + s.queue.capacity
      → Away s s' p
      → At s p g
      → At s' p g
  At-keeps p untouched o b w (high, none_yet) = (w.unpushed high, w.returned ∙ none_yet)
  At-keeps {s} {s'} p (filling t) o b w a = record {
    low = w.unclaimed a.low;
    high = omega (arith, a.high, w.more);
    numbered = w.sequence near a.high ∙ a.numbered;
    owner =
        Fills-carries p (s'.pc t) (w.pushed a.high) (w.value near a.high) (w.fills t _ _ a.owner);
    unreturned = w.returned ∙ a.unreturned;
  }
    where
      near : s.queue.enqueue_pos ≤ p + s.queue.capacity
      near = omega (arith, a.low, b)
  At-keeps {s} {s'} p full o b w a = record {
    low = w.unclaimed a.low;
    high = omega (arith, a.high, w.more);
    numbered = w.sequence near a.high ∙ a.numbered;
    value = w.value near a.high ∙ a.value ∙ sym (w.pushed a.high);
    unreturned = w.returned ∙ a.unreturned;
  }
    where
      near : s.queue.enqueue_pos ≤ p + s.queue.capacity
      near = omega (arith, a.low, b)
  At-keeps {s} {s'} p (draining t) o b w a = record {
    low = omega (arith, w.within a.low a.numbered, w.lap);
    high = omega (arith, a.high, w.later);
    numbered = w.sequence a.low early ∙ a.numbered;
    owner =
        Drains-carries p (s'.pc t) (w.pushed early) (w.value a.low early) (w.drains t _ _ a.owner);
    unreturned = w.returned ∙ a.unreturned;
  }
    where
      early : p < s.queue.enqueue_pos
      early = omega (arith, a.high, o)
  At-keeps {s} {s'} p done o b w (high, once) = (
    omega (arith, high, w.later),
    w.returned ∙ once ∙ ap (λ x. x ∷ []) (sym (w.pushed (omega (arith, high, o)))),
  )

  -- What a move keeps of another thread's locals.
  pub Owns-keeps :
      (s s' : System A) (stage stage' : ℕ → Stage) (t : ℕ) (c : Pc A)
      → s.queue.dequeue_pos ≤ s'.queue.dequeue_pos
      → s.queue.enqueue_pos ≤ s'.queue.enqueue_pos
      → (s'.queue.enqueue_pos ≡ s.queue.enqueue_pos → CanPush s → CanPush s')
      → (s'.queue.dequeue_pos ≡ s.queue.dequeue_pos → CanPop s → CanPop s')
      → ((p : ℕ) → stage p ≡ filling t → stage' p ≡ filling t)
      → ((p : ℕ) → stage p ≡ draining t → stage' p ≡ draining t)
      → Owns s stage t c
      → Owns s' stage' t c
  Owns-keeps s s' stage stage' t idle d e push pop fill drain o = tt
  Owns-keeps s s' stage stage' t (push_loaded v pos) d e push pop fill drain o = omega arith
  Owns-keeps s s' stage stage' t (push_seen v pos seq) d e push pop fill drain (o, unless) = (
    omega (arith, o, e),
    λ same. elim (unless same) [
      | inl gone ↦ inl (omega (arith, gone, e))
      | inr can ↦ elim (dec_lt pos s'.queue.enqueue_pos) [
        | yes gone ↦ inl gone
        | no still ↦ inr (push (omega (arith, o, e, still)) can)
      ]
    ],
  )
  Owns-keeps s s' stage stage' t (push_claimed v pos) d e push pop fill drain o = fill pos o
  Owns-keeps s s' stage stage' t (push_written pos) d e push pop fill drain o = fill pos o
  Owns-keeps s s' stage stage' t (pop_loaded pos) d e push pop fill drain o = omega arith
  Owns-keeps s s' stage stage' t (pop_seen pos seq) d e push pop fill drain (o, unless) = (
    omega (arith, o, d),
    λ same. elim (unless same) [
      | inl gone ↦ inl (omega (arith, gone, d))
      | inr can ↦ elim (dec_lt pos s'.queue.dequeue_pos) [
        | yes gone ↦ inl gone
        | no still ↦ inr (pop (omega (arith, o, d, still)) can)
      ]
    ],
  )
  Owns-keeps s s' stage stage' t (pop_claimed pos) d e push pop fill drain o = drain pos o
  Owns-keeps s s' stage stage' t (pop_read pos out) d e push pop fill drain o = drain pos o
