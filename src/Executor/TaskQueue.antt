-- ===== src/Executor/TaskQueue.antt =====
-- src/executor/mpmc_queue.hpp: MpmcQueue, a ring of cells whose sequence numbers say whose turn they
-- are on. A thread makes one access of the shared words at a time.
--
-- The capacity is a power of two, so that `pos & mask_` is `pos % capacity`. A value that is moved from
-- leaves none. `pushed` and `returned` are not in the program: they record the values in the order in
-- which positions were claimed for them, and what each position's pops gave back.
use edge_orchestrator_ai.Prelude.{
  ℕ, zero, suc, ◌+◌, ◌-◌, ◌*◌, ◌%◌, ◌^◌, ltb, leb, ◌==◌, if◌then◌else◌, Bool, true, false, not,
  ◌&&◌, List, [], ◌∷◌, ◌++◌, Option, none, some, ite, ℕ_discrete,
}
use edge_orchestrator_ai.Prelude.Words.{add64, signed_lt}
mod Positions
mod Invariant
mod Moves
mod Releases
mod Publishes
mod Frees
mod Room
mod Claims
mod Values
mod Exchanges
mod Runs
mod Capacity
mod Histories
mod Fullness
mod Refusals
mod Tests

abbrev pub update {ℓ} : {B : Type ℓ} → (ℕ → B) → ℕ → B → ℕ → B
update f i b j = ite (ℕ_discrete i j) b (f j)

-- std::bit_ceil: the number is doubled until it is large enough.
unfoldable pub doubled_until : ℕ → ℕ → ℕ → ℕ
doubled_until zero power n = power
doubled_until (suc fuel) power n = if leb n power then power else doubled_until fuel (2 * power) n

unfoldable pub bit_ceil : ℕ → ℕ
bit_ceil n = doubled_until 64 1 n

unfoldable pub queue_capacity : ℕ → ℕ
queue_capacity n = bit_ceil (if ltb n 2 then 2 else n)

pub record Cell (A : Type 0) : Type 0 where
  pub sequence : ℕ
  pub value : Option A

pub record MpmcQueue (A : Type 0) : Type 0 where
  pub capacity : ℕ
  pub cells : ℕ → Cell A
  pub enqueue_pos : ℕ
  pub dequeue_pos : ℕ

-- What a thread does next, with its locals.
pub data Pc (A : Type 0) : Type 0 where
  idle : Pc A
  push_loaded : A → ℕ → Pc A
  push_seen : A → ℕ → ℕ → Pc A
  push_claimed : A → ℕ → Pc A
  push_written : ℕ → Pc A
  pop_loaded : ℕ → Pc A
  pop_seen : ℕ → ℕ → Pc A
  pop_claimed : ℕ → Pc A
  pop_read : ℕ → Option A → Pc A

pub record System (A : Type 0) : Type 0 where
  pub queue : MpmcQueue A
  pub pc : ℕ → Pc A
  pub pushed : List A
  pub returned : ℕ → List (Option A)

-- A thread that is in no call begins one; a thread goes on with its call.
pub data QueueEvent (A : Type 0) : Type 0 where
  push : ℕ → A → QueueEvent A
  pop : ℕ → QueueEvent A
  go : ℕ → Bool → QueueEvent A

module _ {A : Type 0} where
  abbrev pub make_queue : ℕ → MpmcQueue A
  make_queue n = record {
    capacity = queue_capacity n;
    cells = λ i. record { sequence = i; value = none };
    enqueue_pos = 0;
    dequeue_pos = 0;
  }

  abbrev pub make_system : ℕ → System A
  make_system n = record { queue = make_queue n; pc = λ t. idle; pushed = []; returned = λ p. [] }

  -- &cells_[pos & mask_]
  abbrev pub cell : MpmcQueue A → ℕ → Cell A
  cell q pos = q.cells (pos % q.capacity)

  abbrev pub store_sequence : ℕ → ℕ → MpmcQueue A → MpmcQueue A
  store_sequence pos seq q = record q {
    cells = update q.cells (pos % q.capacity) (record (cell q pos) { sequence = seq });
  }

  abbrev pub store_value : ℕ → Option A → MpmcQueue A → MpmcQueue A
  store_value pos v q = record q {
    cells = update q.cells (pos % q.capacity) (record (cell q pos) { value = v });
  }

  abbrev pub goes : ℕ → Pc A → System A → System A
  goes t next s = record s { pc = update s.pc t next }

  -- compare_exchange_weak of try_push: it fails if another thread has moved the position, and may fail
  -- if none has; then the position is loaded again.
  abbrev pub push_exchanged : Bool → ℕ → A → ℕ → System A → System A
  push_exchanged true t v pos s = record s {
    queue = record (s.queue) { enqueue_pos = add64 pos 1 };
    pc = update s.pc t (push_claimed v pos);
    pushed = s.pushed ++ (v ∷ []);
  }
  push_exchanged false t v pos s = goes t (push_loaded v s.queue.enqueue_pos) s

  -- diff > 0: the position is loaded again; diff < 0: false is returned.
  abbrev pub push_unequal : Bool → ℕ → A → System A → System A
  push_unequal true t v s = goes t idle s
  push_unequal false t v s = goes t (push_loaded v s.queue.enqueue_pos) s

  abbrev pub push_compared : Bool → ℕ → A → ℕ → ℕ → Bool → System A → System A
  push_compared true t v pos seq spurious s =
      push_exchanged ((s.queue.enqueue_pos == pos) && not spurious) t v pos s
  push_compared false t v pos seq spurious s = push_unequal (signed_lt seq pos) t v s

  abbrev pub pop_exchanged : Bool → ℕ → ℕ → System A → System A
  pop_exchanged true t pos s = record s {
    queue = record (s.queue) { dequeue_pos = add64 pos 1 };
    pc = update s.pc t (pop_claimed pos);
  }
  pop_exchanged false t pos s = goes t (pop_loaded s.queue.dequeue_pos) s

  abbrev pub pop_unequal : Bool → ℕ → System A → System A
  pop_unequal true t s = goes t idle s
  pop_unequal false t s = goes t (pop_loaded s.queue.dequeue_pos) s

  abbrev pub pop_compared : Bool → ℕ → ℕ → ℕ → Bool → System A → System A
  pop_compared true t pos seq spurious s =
      pop_exchanged ((s.queue.dequeue_pos == pos) && not spurious) t pos s
  pop_compared false t pos seq spurious s = pop_unequal (signed_lt seq (add64 pos 1)) t s

  -- The next access of a thread.
  unfoldable pub access : Pc A → ℕ → Bool → System A → System A
  access idle t spurious s = s
  access (push_loaded v pos) t spurious s = goes t (push_seen v pos ((cell s.queue pos).sequence)) s
  access (push_seen v pos seq) t spurious s = push_compared (seq == pos) t v pos seq spurious s
  access (push_claimed v pos) t spurious s =
      goes t (push_written pos) (record s { queue = store_value pos (some v) s.queue })
  access (push_written pos) t spurious s =
      goes t idle (record s { queue = store_sequence pos (add64 pos 1) s.queue })
  access (pop_loaded pos) t spurious s = goes t (pop_seen pos ((cell s.queue pos).sequence)) s
  access (pop_seen pos seq) t spurious s = pop_compared (seq == add64 pos 1) t pos seq spurious s
  access (pop_claimed pos) t spurious s =
      goes t (pop_read pos ((cell s.queue pos).value))
        (record s { queue = store_value pos none s.queue })
  access (pop_read pos out) t spurious s = goes t idle (record s {
    queue = store_sequence pos (add64 pos s.queue.capacity) s.queue;
    returned = update s.returned pos (s.returned pos ++ (out ∷ []));
  })

  abbrev pub push_called : Pc A → ℕ → A → System A → System A
  push_called idle t v s = goes t (push_loaded v s.queue.enqueue_pos) s
  push_called busy t v s = s

  abbrev pub pop_called : Pc A → ℕ → System A → System A
  pop_called idle t s = goes t (pop_loaded s.queue.dequeue_pos) s
  pop_called busy t s = s

  unfoldable pub event : QueueEvent A → System A → System A
  event (push t v) s = push_called (s.pc t) t v s
  event (pop t) s = pop_called (s.pc t) t s
  event (go t spurious) s = access (s.pc t) t spurious s

  abbrev pub events : List (QueueEvent A) → System A → System A
  events [] s = s
  events (e ∷ es) s = events es (event e s)

  unfoldable pub size_approx : MpmcQueue A → ℕ
  size_approx q = if leb q.dequeue_pos q.enqueue_pos then q.enqueue_pos - q.dequeue_pos else 0
