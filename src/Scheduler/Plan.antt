-- ===== src/Scheduler/Plan.antt =====
-- src/scheduler/scheduler.hpp and cluster_view.cpp: peers, decisions and plans.
pub mod Loads
use edge_orchestrator_ai.Prelude.{
  ℕ, suc, ◌+◌, Bool, true, false, List, [], ◌∷◌, String, if◌then◌else◌, ◌&&◌,
}
use edge_orchestrator_ai.Core.Floats.{Floats}
use edge_orchestrator_ai.Core.Types.{NodeId, TaskId, Duration, Timestamp, ResourceSnapshot}

pub record PeerInfo (F : Type 0) : Type 0 where
  pub node_id : NodeId
  pub resources : ResourceSnapshot F
  pub address : String
  pub tcp_port : ℕ
  pub reachable : Bool

pub record ClusterView (F : Type 0) : Type 0 where
  pub peers : List (PeerInfo F)

pub data Reason : Type 0 where
  local_capacity least_loaded threshold_offload optimization_result fallback : Reason

pub record SchedulingDecision : Type 0 where
  pub task_id : TaskId
  pub assigned_node : NodeId
  pub reason : Reason

pub record SchedulingPlan : Type 0 where
  pub decisions : List SchedulingDecision
  pub estimated_makespan : Duration
  pub computed_at : Timestamp

-- std::count_if over the peers
count_reachable : {F : Type 0} → List (PeerInfo F) → ℕ
count_reachable [] = 0
count_reachable (peer ∷ peers) =
    if peer.reachable then suc (count_reachable peers) else count_reachable peers

pub available_count : {F : Type 0} → ClusterView F → ℕ
unfolding count_reachable
available_count view = count_reachable view.peers

module _ (f : Floats) where
  open f use {Float, lt, max_value}

  abbrev pub load : PeerInfo Float → Float
  load peer = peer.resources.cpu_usage_percent

  -- The loop of least_loaded_peer, over min_load and best.
  least_loaded_from : List (PeerInfo Float) → Float → NodeId → Float × NodeId
  least_loaded_from [] min_load best = (min_load, best)
  least_loaded_from (peer ∷ peers) min_load best =
      let better = peer.reachable && lt (load peer) min_load in
      least_loaded_from peers (if better then load peer else min_load)
        (if better then peer.node_id else best)

  unfoldable pub least_loaded_peer : ClusterView Float → NodeId
  unfolding least_loaded_from
  least_loaded_peer view = (least_loaded_from view.peers max_value "").1
