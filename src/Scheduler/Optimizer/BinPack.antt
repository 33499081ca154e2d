-- ===== src/Scheduler/Optimizer/BinPack.antt =====
-- bin_pack_remaining of src/scheduler/optimizer_policy.cpp: the tasks that are left go, the costliest
-- first, to the least loaded node that has the memory.
use edge_orchestrator_ai.Prelude.{
  ℕ, ◌-◌, ◌^◌, Bool, List, [], ◌∷◌, ◌++◌, Option, none, some, ltb, leb, elem, length, get_elem?,
  if◌then◌else◌, string_key, String_discrete, ite,
}
use edge_orchestrator_ai.Core.Types.{NodeId, TaskId, Duration, ResourceSnapshot}
use edge_orchestrator_ai.Workload.Dag.{Task, WorkloadDag, get_task}
use edge_orchestrator_ai.Workload.Dag.Iteration.{Iteration}
use edge_orchestrator_ai.Workload.Dag.Kahn.{topological_order}
use edge_orchestrator_ai.Scheduler.Plan.{ClusterView, SchedulingDecision}
use edge_orchestrator_ai.Scheduler.Choice.{choose}
use edge_orchestrator_ai.Scheduler.Rounds.{each_task}
use edge_orchestrator_ai.Scheduler.Optimizer.{
  NodeBudget, Sorting, memory_remaining, node_budgets, charge, optimized, decided, alter,
}

-- The plan's decisions, and the nodes.
pub record Packing : Type 0 where
  pub nodes : List NodeBudget
  pub decisions : List SchedulingDecision

-- The first node of that name gets the task.
unfoldable pub charge_named : NodeId → Task → TaskId → List NodeBudget → List NodeBudget
charge_named name task task_id [] = []
charge_named name task task_id (node ∷ nodes) =
    ite (String_discrete node.id name) (charge task task_id node ∷ nodes)
      (node ∷ charge_named name task task_id nodes)

abbrev pub account_for : SchedulingDecision → Option Task → List NodeBudget → List NodeBudget
account_for d none nodes = nodes
account_for d (some task) nodes = charge_named d.assigned_node task d.task_id nodes

unfoldable pub account : WorkloadDag → List SchedulingDecision → List NodeBudget → List NodeBudget
account g [] nodes = nodes
account g (d ∷ ds) nodes = account g ds (account_for d (get_task d.task_id g) nodes)

unfoldable pub unassigned : List TaskId → List TaskId → List TaskId
unassigned assigned [] = []
unassigned assigned (id ∷ ids) =
    if elem id assigned then unassigned assigned ids else id ∷ unassigned assigned ids

abbrev pub cost_of : Option Task → Duration
cost_of none = 0
cost_of (some task) = task.profile.compute_cost

-- The comparison that sort is given.
abbrev pub costlier : WorkloadDag → TaskId → TaskId → Bool
costlier g a b = ltb (cost_of (get_task b g)) (cost_of (get_task a g))

-- The least loaded node with enough memory, or the number of nodes.
unfoldable pub best_fit : Task → List NodeBudget → ℕ
best_fit task nodes =
    (choose ltb (λ i node. leb task.profile.memory_bytes (memory_remaining node))
      (λ i node. node.assigned_compute) nodes 0 (2 ^ 63 - 1) (length nodes)).1

-- The local node takes what fits nowhere.
abbrev pub chosen : Task → List NodeBudget → ℕ
chosen task nodes = let best = best_fit task nodes in if leb (length nodes) best then 0 else best

abbrev pub pack_on : TaskId → Task → ℕ → Option NodeBudget → Packing → Packing
pack_on task_id task best none s = s
pack_on task_id task best (some node) s = record {
  nodes = alter best (charge task task_id) s.nodes;
  decisions = s.decisions ++ optimized task_id node.id ∷ [];
}

-- The local node is there, so that the chosen index is in range.
unfoldable pub pack : TaskId → Task → Packing → Packing
pack task_id task s =
    let best = chosen task s.nodes in pack_on task_id task best (get_elem? s.nodes best) s

module _ (sorting : Sorting) (it : Iteration) (g : WorkloadDag) where
  abbrev pub remaining : List SchedulingDecision → List TaskId
  remaining decisions =
      sorting.sort (costlier g) (unassigned (decided decisions) (topological_order it g))

  unfoldable pub bin_pack_remaining :
      {F : Type 0}
      → ResourceSnapshot F
      → ClusterView F
      → List SchedulingDecision
      → List SchedulingDecision
  bin_pack_remaining local cluster decisions =
      (each_task g pack (remaining decisions) (record {
        nodes = account g decisions (node_budgets local cluster);
        decisions = decisions;
      })).decisions
