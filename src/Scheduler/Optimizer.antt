-- ===== src/Scheduler/Optimizer.antt =====
-- src/scheduler/optimizer_policy.cpp: the tasks of the longest path stay on this node, the others are
-- packed onto the nodes by load, and random moves then shorten the plan. The parent has the node
-- budgets that the phases share.
pub mod CriticalPath
pub mod BinPack
pub mod Makespan
pub mod LocalSearch
pub mod Policy
pub mod Moves
pub mod Decides
pub mod Trace
pub mod Names
pub mod Placements
pub mod Indices
pub mod Improves
mod Tests
use edge_orchestrator_ai.Prelude.{
  ℕ, zero, suc, ◌+◌, ◌≡◌, ◌≤◌, Bool, List, [], ◌∷◌, ◌++◌, ltb, if◌then◌else◌, count, string_key,
  map,
}
use edge_orchestrator_ai.Prelude.Words.{add64, sub64}
use edge_orchestrator_ai.Core.Types.{NodeId, TaskId, Duration, ResourceSnapshot}
use edge_orchestrator_ai.Workload.Dag.{Task}
use edge_orchestrator_ai.Scheduler.Plan.{
  PeerInfo, ClusterView, SchedulingDecision, optimization_result,
}

pub record OptimizerPolicyConfig (F : Type 0) : Type 0 where
  pub max_iterations : ℕ
  pub communication_weight : F

-- std::sort, which permutes: each id is in the result as often as in the argument.
pub record Sorting : Type 0 where
  pub sort : (TaskId → TaskId → Bool) → List TaskId → List TaskId
  pub count-sort :
      (less : TaskId → TaskId → Bool) (ids : List TaskId) (id : TaskId)
      → count id (sort less ids) ≡ count id ids

-- A random engine with std::uniform_int_distribution: a draw is between its bounds.
pub record Random : Type 1 where
  pub Rng : Type 0
  pub seeded : ℕ → Rng
  pub uniform : ℕ → ℕ → Rng → ℕ × Rng
  pub uniform_bounds :
      (a b : ℕ) (rng : Rng) → a ≤ b → (a ≤ (uniform a b rng).0) × ((uniform a b rng).0 ≤ b)

pub record NodeBudget : Type 0 where
  pub id : NodeId
  pub memory_capacity : ℕ
  pub memory_used : ℕ
  pub assigned_compute : Duration
  pub assigned_tasks : List TaskId

unfoldable pub memory_remaining : NodeBudget → ℕ
memory_remaining node =
    if ltb node.memory_used node.memory_capacity
    then sub64 node.memory_capacity node.memory_used
    else 0

abbrev pub budget : {F : Type 0} → NodeId → ResourceSnapshot F → NodeBudget
budget id resources = record {
  id = id;
  memory_capacity = resources.memory_available_bytes;
  memory_used = 0;
  assigned_compute = 0;
  assigned_tasks = [];
}

unfoldable pub peer_budgets : {F : Type 0} → List (PeerInfo F) → List NodeBudget
peer_budgets [] = []
peer_budgets (peer ∷ peers) =
    if peer.reachable
    then budget peer.node_id peer.resources ∷ peer_budgets peers
    else peer_budgets peers

-- The first node is the local one.
abbrev pub node_budgets : {F : Type 0} → ResourceSnapshot F → ClusterView F → List NodeBudget
node_budgets local cluster = budget local.node_id local ∷ peer_budgets cluster.peers

-- The three writes that give a node a task.
abbrev pub charge : Task → TaskId → NodeBudget → NodeBudget
charge task task_id node = record node {
  memory_used = add64 node.memory_used task.profile.memory_bytes;
  assigned_compute = node.assigned_compute + task.profile.compute_cost;
  assigned_tasks = node.assigned_tasks ++ task_id ∷ [];
}

abbrev pub optimized : TaskId → NodeId → SchedulingDecision
optimized task_id node = record {
  task_id = task_id;
  assigned_node = node;
  reason = optimization_result;
}

-- The ids that a plan decides, and the names of the nodes.
abbrev pub decided : List SchedulingDecision → List TaskId
decided decisions = map (λ d. d.task_id) decisions

abbrev pub names : List NodeBudget → List NodeId
names nodes = map (λ node. node.id) nodes

-- A change of the node at an index; none if the index is out of range.
abbrev pub alter {ℓ} : {A : Type ℓ} → ℕ → (A → A) → List A → List A
alter i change [] = []
alter zero change (x ∷ xs) = change x ∷ xs
alter (suc i) change (x ∷ xs) = x ∷ alter i change xs
