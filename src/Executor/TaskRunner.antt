-- ===== src/Executor/TaskRunner.antt =====
-- src/executor/task_runner.hpp and task_runner.cpp: TaskRunner::execute. The busy loop
-- simulate_compute changes no state of the program, so that only the clock and the stop token show
-- it: the times at its ends, and what the token answers each time it is asked, are arguments.
use edge_orchestrator_ai.Prelude.{
  ℕ, ◌+◌, ◌-◌, ◌≤◌, ◌≡◌, refl, inl, inr, Bool, Option, none, some, String, if◌then◌else◌, arith,
}
use edge_orchestrator_ai.Prelude.Words.{u64_mod}
use edge_orchestrator_ai.Core.Types.{
  TaskId, TaskProfile, TaskState, completed, failed, Duration, Timestamp,
}
use edge_orchestrator_ai.Executor.MemoryPool.{MemoryPool, allocate, max_align}
use edge_orchestrator_ai.Executor.MemoryPool.Single.{allocate_lem}

pub record ExecutionResult : Type 0 where
  pub task_id : TaskId
  pub final_state : TaskState
  pub actual_duration : Duration
  pub peak_memory_bytes : ℕ
  pub error_message : Option String

-- What the clock and the stop token answer during one run.
pub record Surroundings : Type 0 where
  pub start : Timestamp
  pub end : Timestamp
  pub stopped_at_state : Bool
  pub stopped_at_message : Bool

abbrev pub out_of_memory : TaskId → ExecutionResult
out_of_memory id = record {
  task_id = id;
  final_state = failed;
  actual_duration = 0;
  peak_memory_bytes = 0;
  error_message = some "Out of memory in pool";
}

abbrev pub ran : TaskId → TaskProfile → Surroundings → ExecutionResult
ran id profile w = record {
  task_id = id;
  final_state = if w.stopped_at_state then failed else completed;
  actual_duration = w.end - w.start;
  peak_memory_bytes = profile.memory_bytes;
  error_message = if w.stopped_at_message then some "Cancelled via stop token" else none;
}

abbrev pub outcome : TaskId → TaskProfile → Surroundings → Option ℕ → ExecutionResult
outcome id profile w none = out_of_memory id
outcome id profile w (some mem) = ran id profile w

unfoldable pub execute :
    TaskId → TaskProfile → Surroundings → MemoryPool → ExecutionResult × MemoryPool
execute id profile w pool =
    let (mem, pool') = allocate profile.memory_bytes max_align pool in
    (outcome id profile w mem, pool')

-- On a pool whose offset is at most its capacity, and for a task whose memory, the capacity and
-- 16 add up to at most 2 ^ 64: when execute ends with state completed, the offset has moved by at
-- least the task's memory, it is at most the capacity, and the result reports that memory as the
-- peak.
pub execute-completed :
    (id : TaskId) (profile : TaskProfile) (w : Surroundings) (pool : MemoryPool)
    → pool.offset ≤ pool.capacity
    → pool.capacity + 16 + profile.memory_bytes ≤ u64_mod
    → (execute id profile w pool).0.final_state ≡ completed
    → (pool.offset + profile.memory_bytes ≤ (execute id profile w pool).1.offset)
      × ((execute id profile w pool).1.offset ≤ pool.capacity)
      × ((execute id profile w pool).0.peak_memory_bytes ≡ profile.memory_bytes)
unfolding execute
execute-completed id profile w pool bound small e =
    elim (allocate_lem profile.memory_bytes pool bound small) [
      | inl (refused, _) ↦ let bad : failed ≡ completed = rw refused at e in cc
      | inr (start, granted, _, above, _, fits) ↦ rw granted (omega (arith, above), fits, refl)
    ]
