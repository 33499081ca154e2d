-- ===== src/Executor/TaskQueue/Tests.antt =====
-- A queue of two cells, and the theorems about it at interleaved calls.
use edge_orchestrator_ai.Prelude.{
  ℕ, zero, suc, ◌+◌, ◌*◌, ◌^◌, ◌≤◌, ◌<◌, ◌≡◌, ◌⊎◌, refl, true, false, List, [], ◌∷◌, ◌++◌, some,
  arith, ℕ_discrete, length, get_elem?,
}
use edge_orchestrator_ai.Prelude.Words.{add64}
use edge_orchestrator_ai.Executor.TaskQueue.{
  idle, push_loaded, push_seen, QueueEvent, push, pop, go, System, make_system, events, event,
  access, queue_capacity, bit_ceil, doubled_until, size_approx, cell,
}
use edge_orchestrator_ai.Executor.TaskQueue.Invariant.{Drains, pushed_at, value_at}
use edge_orchestrator_ai.Executor.TaskQueue.Capacity.{queue_capacity-power}
use edge_orchestrator_ai.Executor.TaskQueue.Histories.{events-once, events-settled}
use edge_orchestrator_ai.Executor.TaskQueue.Refusals.{try_push-refused}

-- Two pushes see the same cell, and the second loses the exchange; a pop comes before the values.
abbrev claims : List (QueueEvent ℕ)
claims =
    push 1 10
    ∷ push 2 20
    ∷ go 1 false
    ∷ go 2 false
    ∷ go 1 false
    ∷ go 2 false
    ∷ go 2 false
    ∷ go 2 true
    ∷ go 2 false
    ∷ go 2 false
    ∷ pop 3
    ∷ []

-- The pop is refused, the second value is written before the first, and a third push finds no room.
abbrev values : List (QueueEvent ℕ)
values =
    go 3 false ∷ go 3 false ∷ go 2 false ∷ go 2 false ∷ go 1 false ∷ go 1 false ∷ push 4 30 ∷ []

-- The first value is taken.
abbrev takes : List (QueueEvent ℕ)
takes = go 4 false ∷ go 4 false ∷ pop 3 ∷ go 3 false ∷ go 3 false ∷ go 3 false ∷ go 3 false ∷ []

abbrev whole_run : List (QueueEvent ℕ)
whole_run = claims ++ values ++ takes

-- One thread pushes two values and takes one.
abbrev calls : List (QueueEvent ℕ)
calls =
    push 1 10
    ∷ go 1 false
    ∷ go 1 false
    ∷ go 1 false
    ∷ go 1 false
    ∷ push 1 20
    ∷ go 1 false
    ∷ go 1 false
    ∷ go 1 false
    ∷ go 1 false
    ∷ pop 1
    ∷ go 1 false
    ∷ go 1 false
    ∷ go 1 false
    ∷ go 1 false
    ∷ []

abbrev settled : System ℕ
settled = events calls (make_system 2)

abbrev claimed : System ℕ
claimed = events claims (make_system 2)

abbrev filled : System ℕ
filled = events (claims ++ values) (make_system 2)

abbrev taken : System ℕ
taken = events whole_run (make_system 2)

program : Unit {0}
unfolding event access queue_capacity bit_ceil doubled_until size_approx add64 ℕ_discrete
program = tt
  where
    capacities : queue_capacity 0 ∷ queue_capacity 5 ∷ queue_capacity 8 ∷ [] ≡ 2 ∷ 8 ∷ 8 ∷ []
    capacities = refl

    both_pushed : taken.pushed ≡ 10 ∷ 20 ∷ []
    both_pushed = refl

    first_returned : taken.returned 0 ≡ some 10 ∷ []
    first_returned = refl

    second_kept : (taken.returned 1 ≡ []) × ((cell taken.queue 1).value ≡ some 20)
    second_kept = (refl, refl)

    left : size_approx taken.queue ≡ 1
    left = refl

fits : (es : List (QueueEvent ℕ)) → length es ≤ 1000 → length es + queue_capacity 2 < 2 ^ 63
unfolding queue_capacity bit_ceil doubled_until
fits es h = omega arith

all_idle : (t : ℕ) → settled.pc t ≡ idle
unfolding event access queue_capacity bit_ceil doubled_until add64 ℕ_discrete
all_idle zero = refl
all_idle (suc zero) = refl
all_idle (suc (suc t)) = ground arith

queue_capacity-power_example :
    ((k : ℕ) × (queue_capacity 5 ≡ 2 ^ k))
    × (2 ≤ queue_capacity 5)
    × (5 ≤ queue_capacity 5)
    × ((queue_capacity 5 ≡ 2) ⊎ (queue_capacity 5 < 2 * 5))
queue_capacity-power_example = queue_capacity-power 5 (omega arith)

events-once_example :
    (length taken.pushed ≡ taken.queue.enqueue_pos)
    × (taken.queue.dequeue_pos ≤ taken.queue.enqueue_pos)
    × (taken.queue.enqueue_pos ≤ taken.queue.dequeue_pos + taken.queue.capacity)
    × ((p : ℕ)
        → (taken.returned p ≡ [])
          ⊎ ((p < taken.queue.dequeue_pos) × (taken.returned p ≡ get_elem? taken.pushed p ∷ [])))
events-once_example = events-once whole_run 2 (fits whole_run (omega arith))

events-settled_example :
    (1 < settled.queue.dequeue_pos → settled.returned 1 ≡ get_elem? settled.pushed 1 ∷ [])
    × (settled.queue.dequeue_pos ≤ 1
        → 1 < length settled.pushed
        → (settled.returned 1 ≡ []) × ((cell settled.queue 1).value ≡ get_elem? settled.pushed 1))
events-settled_example = events-settled calls 2 (fits calls (omega arith)) all_idle 1

push_waits : filled.pc 4 ≡ push_loaded 30 2
unfolding event access queue_capacity bit_ceil doubled_until add64 ℕ_discrete
push_waits = refl

-- The third push reads the number that the cell has, and gives up.
push_refused : (events (go 4 false ∷ go 4 false ∷ []) filled).pc 4 ≡ idle
unfolding event access queue_capacity bit_ceil doubled_until add64 ℕ_discrete
push_refused = refl

try_push-refused_example :
    ((access
            (push_seen 30 2 ((cell filled.queue 2).sequence))
            4
            false
            (event (go 4 false) filled)).pc
          4
        ≡ idle
      → (2 ≡ filled.queue.enqueue_pos)
        × ((filled.queue.enqueue_pos ≡ filled.queue.dequeue_pos + filled.queue.capacity)
            ⊎ ((q : ℕ) × (u : ℕ) × (q + filled.queue.capacity ≡ 2)
                × Drains (pushed_at filled q) (value_at filled q) q (filled.pc u))))
    × (2 ≡ filled.queue.dequeue_pos + filled.queue.capacity
        → (access
              (push_seen 30 2 ((cell filled.queue 2).sequence))
              4
              false
              (event (go 4 false) filled)).pc
            4
          ≡ idle)
try_push-refused_example =
    try_push-refused (claims ++ values) 2 4 30 2 false (event (go 4 false) filled)
      (fits (claims ++ values) (omega arith)) push_waits
