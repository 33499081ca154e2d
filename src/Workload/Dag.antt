-- ===== src/Workload/Dag.antt =====
-- src/workload/dag.hpp and dag.cpp: the task graph, its construction, queries and state updates.
pub mod Iteration
pub mod Kahn
pub mod Graph
pub mod Cycle
pub mod Build
pub mod Agreement
pub mod Ready
pub mod Tests
use edge_orchestrator_ai.Prelude.{
  ℕ, Bool, true, false, not, ◌&&◌, List, [], ◌∷◌, ◌++◌, Option, none, some, String, ite, elem,
  length, ◌+◌, if◌then◌else◌, string_key,
}
use edge_orchestrator_ai.Prelude.HashMap.{find, find_or, assign, emplace, update}
use edge_orchestrator_ai.Core.Types.{
  TaskId, TaskProfile, TaskState, pending, ready, scheduled, running, completed, failed,
}

pub record Task : Type 0 where
  pub id : TaskId
  pub name : String
  pub profile : TaskProfile
  pub dependencies : List TaskId
  pub state : TaskState

pub record WorkloadDag : Type 0 where
  pub tasks : List (TaskId × Task)
  -- forward edges
  pub adj_list : List (TaskId × List TaskId)
  -- backward edges
  pub reverse_adj : List (TaskId × List TaskId)

abbrev pub empty_dag : WorkloadDag
empty_dag = record { tasks = []; adj_list = []; reverse_adj = [] }

unfoldable pub add_task : Task → WorkloadDag → WorkloadDag
add_task task g = record {
  tasks = emplace task.id task g.tasks;
  adj_list = emplace task.id [] g.adj_list;
  reverse_adj = emplace task.id [] g.reverse_adj;
}

-- map[key].push_back(x)
push_back_at : TaskId → TaskId → List (TaskId × List TaskId) → List (TaskId × List TaskId)
push_back_at key x m = assign key (find_or [] key m ++ x ∷ []) m

-- deps.push_back(from), unless it is there
note_dependency : TaskId → Task → Task
note_dependency from task =
    if elem from task.dependencies
    then task
    else record task { dependencies = task.dependencies ++ from ∷ [] }

unfoldable pub add_dependency : TaskId → TaskId → WorkloadDag → WorkloadDag
unfolding push_back_at note_dependency
add_dependency from to g = record {
  tasks = update to (note_dependency from) g.tasks;
  adj_list = push_back_at from to g.adj_list;
  reverse_adj = push_back_at to from g.reverse_adj;
}

-- queries

unfoldable pub dependents : TaskId → WorkloadDag → List TaskId
dependents id g = find_or [] id g.adj_list

unfoldable pub dependencies_of : TaskId → WorkloadDag → List TaskId
dependencies_of id g = find_or [] id g.reverse_adj

unfoldable pub task_count : WorkloadDag → ℕ
task_count g = length g.tasks

unfoldable pub get_task : TaskId → WorkloadDag → Option Task
get_task id g = find id g.tasks

abbrev pub is_pending : TaskState → Bool
is_pending pending = true
is_pending _ = false

abbrev pub is_completed : TaskState → Bool
is_completed completed = true
is_completed _ = false

-- the inner loop of ready_tasks: a dependency that names no task does not hold the task back
pub deps_met : List (TaskId × Task) → List TaskId → Bool
deps_met tasks [] = true
deps_met tasks (dep_id ∷ ids) = elim (find dep_id tasks) [
  | none ↦ deps_met tasks ids
  | some dep ↦ elim (is_completed dep.state) [ true ↦ deps_met tasks ids | false ↦ false ]
]

pub ready_from : WorkloadDag → List (TaskId × Task) → List TaskId
unfolding deps_met
ready_from g [] = []
ready_from g ((id, task) ∷ rest) =
    if is_pending task.state && deps_met g.tasks (find_or [] id g.reverse_adj)
    then id ∷ ready_from g rest
    else ready_from g rest

unfoldable pub ready_tasks : WorkloadDag → List TaskId
unfolding ready_from
ready_tasks g = ready_from g g.tasks

-- state updates

set_state : TaskState → TaskId → WorkloadDag → WorkloadDag
set_state s id g = record g { tasks = update id (λ task. record task { state = s }) g.tasks }

unfoldable pub mark_completed : TaskId → WorkloadDag → WorkloadDag
unfolding set_state
mark_completed = set_state completed

unfoldable pub mark_failed : TaskId → WorkloadDag → WorkloadDag
unfolding set_state
mark_failed = set_state failed

unfoldable pub mark_running : TaskId → WorkloadDag → WorkloadDag
unfolding set_state
mark_running = set_state running

unfoldable pub mark_scheduled : TaskId → WorkloadDag → WorkloadDag
unfolding set_state
mark_scheduled = set_state scheduled

-- the loop of total_compute_cost, from a total so far
sum_costs : ℕ → List (TaskId × Task) → ℕ
sum_costs total [] = total
sum_costs total ((id, task) ∷ rest) = sum_costs (total + task.profile.compute_cost) rest

unfoldable pub total_compute_cost : WorkloadDag → ℕ
unfolding sum_costs
total_compute_cost g = sum_costs 0 g.tasks
