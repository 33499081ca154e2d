-- ===== src/Scheduler/Greedy.antt =====
-- src/scheduler/greedy_policy.cpp: each task goes to the node of the greatest score that has the
-- memory for it.
pub mod Step
pub mod Placement
use edge_orchestrator_ai.Prelude.{
  ℕ, ◌+◌, ◌-◌, max, Bool, List, [], ◌∷◌, ◌++◌, none, some, get_elem?, set, leb, ltb, ◌==◌,
  if◌then◌else◌,
}
use edge_orchestrator_ai.Prelude.Words.{add64, sub64}
use edge_orchestrator_ai.Core.Floats.{Floats}
use edge_orchestrator_ai.Core.Types.{
  NodeId, TaskId, TaskProfile, Duration, Timestamp, ResourceSnapshot, memory_usage_percent,
  cpu_headroom_percent,
}
use edge_orchestrator_ai.Workload.Dag.{Task, WorkloadDag}
use edge_orchestrator_ai.Workload.Dag.Iteration.{Iteration}
use edge_orchestrator_ai.Workload.Dag.Kahn.{topological_order}
use edge_orchestrator_ai.Scheduler.Plan.{
  PeerInfo, ClusterView, SchedulingDecision, SchedulingPlan, local_capacity, least_loaded,
}
use edge_orchestrator_ai.Scheduler.Choice.{choose}
use edge_orchestrator_ai.Scheduler.Rounds.{each_task}

pub record NodeState (F : Type 0) : Type 0 where
  pub id : NodeId
  pub resources : ResourceSnapshot F
  pub assigned_compute : Duration

-- The list of nodes, with the decisions of the plan.
pub record Assignment (F : Type 0) : Type 0 where
  pub nodes : List (NodeState F)
  pub decisions : List SchedulingDecision

abbrev pub node_state : {F : Type 0} → NodeId → ResourceSnapshot F → NodeState F
node_state id resources = record { id = id; resources = resources; assigned_compute = 0 }

unfoldable pub peer_nodes : {F : Type 0} → List (PeerInfo F) → List (NodeState F)
peer_nodes [] = []
peer_nodes (peer ∷ peers) =
    if peer.reachable
    then node_state peer.node_id peer.resources ∷ peer_nodes peers
    else peer_nodes peers

-- The first node is the local one.
unfoldable pub first_nodes : {F : Type 0} → ResourceSnapshot F → ClusterView F → Assignment F
first_nodes local cluster = record {
  nodes = node_state local.node_id local ∷ peer_nodes cluster.peers;
  decisions = [];
}

unfoldable pub max_compute : {F : Type 0} → List (NodeState F) → Duration → Duration
max_compute [] most = most
max_compute (node ∷ nodes) most = max_compute nodes (max most node.assigned_compute)

-- assigned_compute += …, and the memory where there is enough of it
abbrev pub loaded : {F : Type 0} → Task → NodeState F → NodeState F
loaded task node = record node {
  assigned_compute = node.assigned_compute + task.profile.compute_cost;
  resources = record node.resources {
    memory_available_bytes =
        if leb task.profile.memory_bytes node.resources.memory_available_bytes
        then sub64 node.resources.memory_available_bytes task.profile.memory_bytes
        else node.resources.memory_available_bytes;
  };
}

-- The decision for the node at the index, and its new state.
unfoldable pub assign_to :
    {F : Type 0} → TaskId → Task → ℕ → NodeState F → Assignment F → Assignment F
assign_to task_id task best_idx node s = record {
  nodes = set s.nodes best_idx (loaded task node);
  decisions =
      s.decisions
      ++ record {
        task_id = task_id;
        assigned_node = node.id;
        reason = if best_idx == 0 then local_capacity else least_loaded;
      }
        ∷ [];
}

module _ (f : Floats) where
  open f use {Float, of_ℕ, literal, add, sub, mul, div, neg, lt, max_value}

  -- W_CPU = 1.0f, W_MEM = 0.5f, W_NET = 0.3f
  unfoldable pub compute_node_score : ResourceSnapshot Float → TaskProfile → Bool → Float
  compute_node_score resources profile is_local =
      let cpu_headroom = cpu_headroom_percent f resources in
      let mem_headroom = sub (literal 100 1) (memory_usage_percent f resources) in
      let transfer_cost =
        if is_local
        then literal 0 1
        else div (of_ℕ (add64 profile.input_bytes profile.output_bytes))
            (mul (literal 1024 1) (literal 1024 1)) in
      sub (add (mul (literal 1 1) cpu_headroom) (mul (literal 1 2) mem_headroom))
        (mul (literal 3 10) transfer_cost)

  abbrev pub score : Task → ℕ → NodeState Float → Float
  score task i node = compute_node_score node.resources task.profile (i == 0)

  -- score > best_score
  abbrev pub higher : Float → Float → Bool
  higher a b = lt b a

  abbrev pub has_memory : Task → ℕ → NodeState Float → Bool
  has_memory task i node = leb task.profile.memory_bytes node.resources.memory_available_bytes

  unfoldable pub best_node : Task → List (NodeState Float) → ℕ
  best_node task nodes = (choose higher (has_memory task) (score task) nodes 0 (neg max_value) 0).1

  -- The body of the loop over the topological order. The list is never empty: `assign_task-notes`
  -- of Greedy/Placement.
  unfoldable pub assign_task : TaskId → Task → Assignment Float → Assignment Float
  assign_task task_id task s =
      let best_idx = best_node task s.nodes in
      elim (get_elem? s.nodes best_idx) [
        | some node ↦ assign_to task_id task best_idx node s
        | none ↦ s
      ]

  unfoldable pub assigned :
      ResourceSnapshot Float → Iteration → WorkloadDag → ClusterView Float → Assignment Float
  assigned local it g cluster =
      each_task g assign_task (topological_order it g) (first_nodes local cluster)

  -- The clock's time is the last argument.
  unfoldable pub schedule :
      ResourceSnapshot Float
      → Iteration
      → WorkloadDag
      → ClusterView Float
      → Timestamp
      → SchedulingPlan
  schedule local it g cluster now =
      let s = assigned local it g cluster in
      record {
        decisions = s.decisions;
        estimated_makespan = max_compute s.nodes 0;
        computed_at = now;
      }
