-- ===== src/Executor/Tests.antt =====
-- The arena and the runner on small inputs, and the theorems about them at these.
use edge_orchestrator_ai.Prelude.{
  ℕ, ◌+◌, ◌-◌, ◌%◌, ◌≤◌, ◌<◌, ◌≡◌, ◌⊎◌, refl, true, false, List, [], ◌∷◌, some, none, arith,
  nat_key, ℕ_discrete, get_elem?,
}
use edge_orchestrator_ai.Prelude.Words.{u64_mod, add64, sub64}
use edge_orchestrator_ai.Prelude.HashMap.{find, assign, erase}
use edge_orchestrator_ai.Core.Types.{TaskProfile, completed}
use edge_orchestrator_ai.Executor.MemoryPool.{
  MemoryPool, Event, loads, attempts, make_pool, max_align, align_up, allocate, attempt, step,
  steps, fresh, reset,
}
use edge_orchestrator_ai.Executor.MemoryPool.Single.{allocate_lem, allocate-wraps}
use edge_orchestrator_ai.Executor.MemoryPool.Safety.{Requested, granted_apart, granted_inside}
use edge_orchestrator_ai.Executor.TaskRunner.{Surroundings, execute, execute-completed}

-- Two threads load the same offset; the second loses the exchange and tries again.
abbrev race : List Event
race =
    loads 1 10 16
    ∷ loads 2 20 16
    ∷ attempts 1 false
    ∷ attempts 2 false
    ∷ attempts 2 true
    ∷ attempts 2 false
    ∷ []

program : Unit {0}
unfolding make_pool align_up allocate attempt step steps reset add64 sub64 find assign erase execute
    ℕ_discrete
program = tt

race_runs : (steps race (fresh 64)).granted ≡ (16, 20) ∷ (0, 10) ∷ []
unfolding program
race_runs = refl

race_runs_first : get_elem? (steps race (fresh 64)).granted 0 ≡ some (16, 20)
unfolding program
race_runs_first = refl

race_runs_second : get_elem? (steps race (fresh 64)).granted 1 ≡ some (0, 10)
unfolding program
race_runs_second = refl

race-Requested : Requested 64 race
race-Requested = ((refl, omega arith), ((refl, omega arith), tt))

granted_apart_example : 0 + 10 ≤ 16
unfolding program
granted_apart_example =
    granted_apart 64 race 0 1 race-Requested (omega arith) race_runs_first race_runs_second

granted_inside_example : (16 + 20 ≤ 64) × (16 % 16 ≡ 0)
unfolding program
granted_inside_example = granted_inside 64 race 0 race-Requested race_runs_first

abbrev half_used : MemoryPool
half_used = record { capacity = 64; offset = 32 }

allocate_lem_example :
    ((allocate 20 max_align half_used ≡ (none, half_used)) × (64 < 32 + 15 + 20))
    ⊎ ((start : ℕ) × (allocate 20 max_align half_used
          ≡ (some start, record half_used { offset = start + 20 }))
        × (start % 16 ≡ 0)
        × (32 ≤ start)
        × (start ≤ 32 + 15)
        × (start + 20 ≤ 64))
allocate_lem_example = allocate_lem 20 half_used (omega arith) (omega arith)

-- The arena has 32 bytes left, and grants a block of 2 ^ 64 - 32.
allocate-wraps_example :
    allocate (u64_mod - 32) max_align half_used ≡ (some 32, record half_used { offset = 0 })
allocate-wraps_example = allocate-wraps half_used refl (omega arith) (omega arith)

abbrev profile : TaskProfile
profile = record { compute_cost = 5; memory_bytes = 20; input_bytes = 0; output_bytes = 0 }

abbrev calm : Surroundings
calm = record { start = 100; end = 105; stopped_at_state = false; stopped_at_message = false }

execute_completes : (execute "a" profile calm half_used).0.final_state ≡ completed
unfolding program
execute_completes = refl

execute-completed_example :
    (32 + 20 ≤ (execute "a" profile calm half_used).1.offset)
    × ((execute "a" profile calm half_used).1.offset ≤ 64)
    × ((execute "a" profile calm half_used).0.peak_memory_bytes ≡ 20)
execute-completed_example =
    execute-completed "a" profile calm half_used (omega arith) (omega arith) execute_completes
