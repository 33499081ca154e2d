-- ===== src/Scheduler/Optimizer/Makespan.antt =====
-- estimate_makespan of src/scheduler/optimizer_policy.cpp: a list schedule of the topological order,
-- with one slot for each node.
use edge_orchestrator_ai.Prelude.{
  ℕ, zero, suc, ◌+◌, ◌==◌, max, List, [], ◌∷◌, Option, none, some, get_elem?, set, if◌then◌else◌,
  string_key,
}
use edge_orchestrator_ai.Prelude.HashMap.{find, assign}
use edge_orchestrator_ai.Core.Floats.{Floats}
use edge_orchestrator_ai.Core.Types.{TaskId, Duration}
use edge_orchestrator_ai.Workload.Dag.{Task, WorkloadDag, get_task, dependencies_of}
use edge_orchestrator_ai.Workload.Dag.Iteration.{Iteration}
use edge_orchestrator_ai.Workload.Dag.Kahn.{topological_order}
use edge_orchestrator_ai.Scheduler.Rounds.{each_task}

pub record Timeline : Type 0 where
  pub end_time : List (TaskId × Duration)
  pub node_free : List Duration
  pub makespan : Duration

-- std::vector(n, 0)
abbrev pub zeros : ℕ → List Duration
zeros zero = []
zeros (suc n) = 0 ∷ zeros n

-- The indices of an assignment are those of nodes, so that the default is not used.
abbrev pub free_at : Option Duration → Duration
free_at none = 0
free_at (some t) = t

module _ (f : Floats) (g : WorkloadDag) (assignment : List (TaskId × ℕ))
    (comm_weight : f.Float) where
  open f use {of_ℕ, literal, mul, truncate}

  abbrev pub transfer : Option Task → Duration
  transfer none = 0
  transfer (some dep) =
      truncate (mul (mul (of_ℕ dep.profile.output_bytes) comm_weight) (literal 1 1000))

  -- What the move of a dependency's output to the node costs.
  abbrev pub delay : ℕ → TaskId → Option ℕ → Duration
  delay node dep_id none = 0
  delay node dep_id (some dep_node) = if dep_node == node then 0 else transfer (get_task dep_id g)

  abbrev pub arrival : ℕ → TaskId → Option Duration → Duration → Duration
  arrival node dep_id none ready = ready
  arrival node dep_id (some dep_end) ready =
      max ready (dep_end + delay node dep_id (find dep_id assignment))

  unfoldable pub ready_at : List (TaskId × Duration) → ℕ → List TaskId → Duration → Duration
  ready_at end_time node [] ready = ready
  ready_at end_time node (dep_id ∷ deps) ready =
      ready_at end_time node deps (arrival node dep_id (find dep_id end_time) ready)

  abbrev pub run_on : TaskId → Task → Option ℕ → Timeline → Timeline
  run_on task_id task none s = s
  run_on task_id task (some node) s =
      let ready = ready_at s.end_time node (dependencies_of task_id g) 0 in
      let start = max ready (free_at (get_elem? s.node_free node)) in
      let end = start + task.profile.compute_cost in
      record {
        end_time = assign task_id end s.end_time;
        node_free = set s.node_free node end;
        makespan = max s.makespan end;
      }

  abbrev pub run_task : TaskId → Task → Timeline → Timeline
  run_task task_id task s = run_on task_id task (find task_id assignment) s

  unfoldable pub estimate_makespan : Iteration → ℕ → Duration
  estimate_makespan it node_count =
      (each_task g run_task (topological_order it g)
        (record { end_time = []; node_free = zeros node_count; makespan = 0 })).makespan
