-- ===== src/Workload/Dag/Tests.antt =====
-- The task graph on small inputs, and the theorems about it at these.
use mathlib.Core.List.Perm
use edge_orchestrator_ai.Prelude.{
  ℕ, ◌≡◌, ◌≢◌, ◌↔◌, ◌⊎◌, refl, inl, inr, true, false, List, [], ◌∷◌, some, string_key, elem, count,
  Distinct, length, String_discrete, ℕ_discrete,
}
use edge_orchestrator_ai.Prelude.Words.{pred64}
use edge_orchestrator_ai.Prelude.HashMap.{find, find_or, assign, emplace, update}
use edge_orchestrator_ai.Core.Types.{TaskId, pending, completed}
use edge_orchestrator_ai.Workload.Dag.{
  Task, WorkloadDag, empty_dag, add_task, add_dependency, ready_tasks, task_count,
  total_compute_cost,
}
use edge_orchestrator_ai.Workload.Dag.Iteration.{Iteration}
use edge_orchestrator_ai.Workload.Dag.Graph.{IsWellFormed, IsClosed, IsAcyclic}
use edge_orchestrator_ai.Workload.Dag.Build.{
  Operation, adds_task, adds_dependency, build, apply, apply-IsWellFormed, build-IsWellFormed,
  empty-IsClosed, add_task-IsClosed, add_dependency-IsClosed,
}
use edge_orchestrator_ai.Workload.Dag.Kahn.{topological_order, kahn}
use edge_orchestrator_ai.Workload.Dag.Kahn.Pending.{IsTopological, Edge}
use edge_orchestrator_ai.Workload.Dag.Ready.{ready_tasks_iff}
use edge_orchestrator_ai.Workload.Dag.Kahn.Order.{topological_order_sound}
use edge_orchestrator_ai.Workload.Dag.Cycle.{has_cycle, is_valid}
use edge_orchestrator_ai.Workload.Dag.Cycle.Decides.{has_cycle_decides}
use edge_orchestrator_ai.Workload.Dag.Agreement.{order_complete_iff_no_cycle, is_valid_iff}

abbrev pub in_order : Iteration
in_order = record { visit = λ m. m; visit-perm = λ m. Perm.rfl }

abbrev pub task : TaskId → ℕ → ℕ → Task
task id cost memory = record {
  id = id;
  name = id;
  profile = record {
    compute_cost = cost;
    memory_bytes = memory;
    input_bytes = 0;
    output_bytes = 0;
  };
  dependencies = [];
  state = pending;
}

-- a → b → d and a → c → d
abbrev diamond_operations : List Operation
diamond_operations =
    adds_task (task "a" 10 1)
    ∷ adds_task (task "b" 20 2)
    ∷ adds_task (task "c" 5 4)
    ∷ adds_task (task "d" 1 8)
    ∷ adds_dependency "a" "b"
    ∷ adds_dependency "a" "c"
    ∷ adds_dependency "b" "d"
    ∷ adds_dependency "c" "d"
    ∷ []

unfoldable pub program : Unit {0}
unfolding build apply add_task add_dependency find find_or assign emplace update elem count pred64
    String_discrete ℕ_discrete topological_order has_cycle is_valid ready_tasks total_compute_cost
program = tt

unfoldable pub diamond : WorkloadDag
unfolding program
diamond = build diamond_operations empty_dag

cyclic : WorkloadDag
unfolding program
cyclic = add_dependency "d" "b" diamond

order-diamond : topological_order in_order diamond ≡ "a" ∷ "b" ∷ "c" ∷ "d" ∷ []
unfolding program diamond
order-diamond = refl

order-cyclic : topological_order in_order cyclic ≡ "a" ∷ "c" ∷ []
unfolding program cyclic diamond
order-cyclic = refl

has_cycle_runs : (has_cycle diamond ≡ some false) × (has_cycle cyclic ≡ some true)
unfolding program cyclic diamond
has_cycle_runs = (refl, refl)

ready_runs : ready_tasks diamond ≡ "a" ∷ []
unfolding program diamond
ready_runs = refl

pub diamond-IsWellFormed : IsWellFormed diamond
unfolding diamond
diamond-IsWellFormed = build-IsWellFormed diamond_operations

cyclic-IsWellFormed : IsWellFormed cyclic
unfolding cyclic diamond apply build
cyclic-IsWellFormed = apply-IsWellFormed (adds_dependency "d" "b") diamond diamond-IsWellFormed

pub diamond-IsClosed : IsClosed diamond
unfolding diamond program
diamond-IsClosed = add_dependency-IsClosed "c" "d" _ refl refl (
    add_dependency-IsClosed "b" "d" _ refl refl (
      add_dependency-IsClosed "a" "c" _ refl refl (
        add_dependency-IsClosed "a" "b" _ refl refl (
          add_task-IsClosed (task "d" 1 8) _ (
            add_task-IsClosed (task "c" 5 4) _ (
              add_task-IsClosed (task "b" 20 2) _
                (add_task-IsClosed (task "a" 10 1) _ empty-IsClosed)))))))

cyclic-IsClosed : IsClosed cyclic
unfolding cyclic diamond program
cyclic-IsClosed = add_dependency-IsClosed "d" "b" diamond refl refl diamond-IsClosed

diamond-IsAcyclic : IsAcyclic diamond
diamond-IsAcyclic = elim (has_cycle_decides diamond diamond-IsClosed) [
  | inl (found, _) ↦ cc has_cycle_runs.0
  | inr (_, acyclic) ↦ acyclic
]

build-IsWellFormed_example : IsWellFormed (build diamond_operations empty_dag)
build-IsWellFormed_example = build-IsWellFormed diamond_operations

topological_order_sound_example :
    ((kahn in_order diamond).1 ≡ [])
    × Distinct (topological_order in_order diamond)
    × IsTopological diamond.adj_list [] (topological_order in_order diamond)
topological_order_sound_example = topological_order_sound in_order diamond diamond-IsWellFormed

has_cycle_decides_example :
    ((has_cycle cyclic ≡ some true) × ¬ IsAcyclic cyclic)
    ⊎ ((has_cycle cyclic ≡ some false) × IsAcyclic cyclic)
has_cycle_decides_example = has_cycle_decides cyclic cyclic-IsClosed

order_complete_iff_no_cycle_example :
    (length (topological_order in_order cyclic) ≡ task_count cyclic)
    ↔ (has_cycle cyclic ≡ some false)
order_complete_iff_no_cycle_example =
    order_complete_iff_no_cycle in_order cyclic cyclic-IsWellFormed cyclic-IsClosed

is_valid_iff_example : (is_valid diamond ≡ some true) ↔ ((diamond.tasks ≢ []) × IsAcyclic diamond)
is_valid_iff_example = is_valid_iff diamond diamond-IsClosed

ready_tasks_iff_example : (elem "a" (ready_tasks diamond) ≡ true) ↔ (
    (t : Task) × (find "a" diamond.tasks ≡ some t)
    × (t.state ≡ pending)
    × ((u : TaskId) (dep : Task)
        → Edge diamond.adj_list u "a"
        → find u diamond.tasks ≡ some dep
        → dep.state ≡ completed))
ready_tasks_iff_example = ready_tasks_iff diamond "a" diamond-IsWellFormed
