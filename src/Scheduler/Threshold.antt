-- ===== src/Scheduler/Threshold.antt =====
-- src/scheduler/threshold_policy.cpp: tasks stay on this node until its simulated load reaches a
-- threshold; then each goes to the least loaded peer that has the memory for it. Durations are
-- words of int64_t here: their sums wrap around, and their order is the signed one.
pub mod Step
pub mod Placement
pub mod Memory
pub mod Makespan
use edge_orchestrator_ai.Prelude.{
  ℕ, ◌-◌, Bool, List, [], ◌∷◌, ◌++◌, Option, none, some, length, get_elem?, set, ltb, leb, ◌==◌,
  ◌&&◌, if◌then◌else◌,
}
use edge_orchestrator_ai.Prelude.Words.{u64_mod, add64, sub64, signed_lt, signed_max}
use edge_orchestrator_ai.Core.Floats.{Floats, minimum}
use edge_orchestrator_ai.Core.Types.{NodeId, TaskId, Duration, Timestamp, ResourceSnapshot}
use edge_orchestrator_ai.Workload.Dag.{Task, WorkloadDag}
use edge_orchestrator_ai.Workload.Dag.Iteration.{Iteration}
use edge_orchestrator_ai.Workload.Dag.Kahn.{topological_order}
use edge_orchestrator_ai.Scheduler.Plan.{
  PeerInfo, ClusterView, Reason, SchedulingDecision, SchedulingPlan, local_capacity,
  threshold_offload, fallback,
}
use edge_orchestrator_ai.Scheduler.Choice.{choose}
use edge_orchestrator_ai.Scheduler.Rounds.{each_task}

pub record ThresholdPolicyConfig (F : Type 0) : Type 0 where
  pub cpu_threshold_percent : F
  pub memory_threshold_percent : F

pub record PeerState (F : Type 0) : Type 0 where
  pub id : NodeId
  pub cpu_load : F
  pub mem_available : ℕ
  pub assigned_compute : Duration

-- The local variables of schedule, with the decisions of the plan.
pub record Simulation (F : Type 0) : Type 0 where
  pub sim_cpu : F
  pub sim_mem_used : ℕ
  pub local_compute : Duration
  pub peers : List (PeerState F)
  pub decisions : List SchedulingDecision

-- plan.decisions.push_back
abbrev pub noted : {F : Type 0} → TaskId → NodeId → Reason → Simulation F → Simulation F
noted task_id node reason s = record s {
  decisions =
      s.decisions ++ record { task_id = task_id; assigned_node = node; reason = reason } ∷ [];
}

-- What a round knows of a reachable peer at the start.
abbrev pub peer_state : {F : Type 0} → PeerInfo F → PeerState F
peer_state peer = record {
  id = peer.node_id;
  cpu_load = peer.resources.cpu_usage_percent;
  mem_available = peer.resources.memory_available_bytes;
  assigned_compute = 0;
}

unfoldable pub peer_states : {F : Type 0} → List (PeerInfo F) → List (PeerState F)
peer_states [] = []
peer_states (peer ∷ peers) =
    if peer.reachable then peer_state peer ∷ peer_states peers else peer_states peers

unfoldable pub max_peer_compute : {F : Type 0} → List (PeerState F) → Duration → Duration
max_peer_compute [] most = most
max_peer_compute (peer ∷ peers) most =
    max_peer_compute peers (signed_max most peer.assigned_compute)

module _ (f : Floats) where
  open f use {Float, of_ℕ, literal, add, sub, mul, div, lt, max_value}

  -- static_cast<float> of an int64_t
  abbrev pub float_of : Duration → Float
  float_of d = if signed_lt d 0 then sub (literal 0 1) (of_ℕ (u64_mod - d)) else of_ℕ d

  -- static_cast<float>(compute_cost.count()) * 0.001f
  abbrev pub task_load : Task → Float
  task_load task = mul (float_of task.profile.compute_cost) (literal 1 1000)

  unfoldable pub sim_mem_pct : ℕ → Simulation Float → Float
  sim_mem_pct mem_total s =
      if ltb 0 mem_total
      then div (mul (literal 100 1) (of_ℕ s.sim_mem_used)) (of_ℕ mem_total)
      else literal 0 1

  unfoldable pub stays_local : ThresholdPolicyConfig Float → ℕ → Task → Simulation Float → Bool
  stays_local config mem_total task s =
      lt s.sim_cpu config.cpu_threshold_percent
      && lt (sim_mem_pct mem_total s) config.memory_threshold_percent
      && leb task.profile.memory_bytes (sub64 mem_total s.sim_mem_used)

  -- The index of the least loaded peer with enough memory, or the number of peers.
  unfoldable pub best_peer : Task → List (PeerState Float) → ℕ
  best_peer task peers =
      (choose lt (λ i peer. leb task.profile.memory_bytes peer.mem_available)
        (λ i peer. peer.cpu_load) peers 0 max_value (length peers)).1

  abbrev pub offloaded : Task → PeerState Float → PeerState Float
  offloaded task peer = record peer {
    assigned_compute = add64 peer.assigned_compute task.profile.compute_cost;
    mem_available = sub64 peer.mem_available task.profile.memory_bytes;
    cpu_load = add peer.cpu_load (task_load task);
  }

  unfoldable pub start : ResourceSnapshot Float → ClusterView Float → Simulation Float
  start local cluster = record {
    sim_cpu = local.cpu_usage_percent;
    sim_mem_used = sub64 local.memory_total_bytes local.memory_available_bytes;
    local_compute = 0;
    peers = peer_states cluster.peers;
    decisions = [];
  }

  module _ (config : ThresholdPolicyConfig Float) (local : ResourceSnapshot Float) where
    unfoldable pub place_locally : TaskId → Task → Simulation Float → Simulation Float
    place_locally task_id task s = noted task_id local.node_id local_capacity (record s {
      local_compute = add64 s.local_compute task.profile.compute_cost;
      sim_mem_used = add64 s.sim_mem_used task.profile.memory_bytes;
      sim_cpu = minimum f (add s.sim_cpu (task_load task)) (literal 100 1);
    })

    unfoldable pub fall_back : TaskId → Task → Simulation Float → Simulation Float
    fall_back task_id task s = noted task_id local.node_id fallback (record s {
      local_compute = add64 s.local_compute task.profile.compute_cost;
      sim_mem_used = add64 s.sim_mem_used task.profile.memory_bytes;
    })

    unfoldable pub offload :
        TaskId → Task → ℕ → PeerState Float → Simulation Float → Simulation Float
    offload task_id task best peer s =
        noted task_id peer.id threshold_offload
          (record s { peers = set s.peers best (offloaded task peer) })

    -- The body of the loop over the topological order.
    unfoldable pub assign_task : TaskId → Task → Simulation Float → Simulation Float
    assign_task task_id task s =
        let best = best_peer task s.peers in
        if stays_local config local.memory_total_bytes task s
        then place_locally task_id task s
        else elim (get_elem? s.peers best) [
          | some peer ↦ offload task_id task best peer s
          | none ↦ fall_back task_id task s
        ]

    unfoldable pub simulated : Iteration → WorkloadDag → ClusterView Float → Simulation Float
    simulated it g cluster = each_task g assign_task (topological_order it g) (start local cluster)

    -- The clock's time is the last argument.
    unfoldable pub schedule :
        Iteration → WorkloadDag → ClusterView Float → Timestamp → SchedulingPlan
    schedule it g cluster now =
        let s = simulated it g cluster in
        record {
          decisions = s.decisions;
          estimated_makespan = signed_max s.local_compute (max_peer_compute s.peers 0);
          computed_at = now;
        }
