-- ===== src/Scheduler/Threshold/Placement.antt =====
-- Where the threshold policy may place a task.
use mathlib.Core.List.{Memᴰ}
use mathlib.Core.List.Memᴰ
use edge_orchestrator_ai.Prelude.{
  ℕ, zero, suc, ◌≡◌, refl, ◌⊎◌, inl, inr, true, List, [], ◌∷◌, map, some, get_elem?, get_elem?-set,
  string_key, Bool-cases,
}
use edge_orchestrator_ai.Core.Floats.{Floats}
use edge_orchestrator_ai.Core.Types.{TaskId, Timestamp, ResourceSnapshot}
use edge_orchestrator_ai.Workload.Dag.{Task, WorkloadDag}
use edge_orchestrator_ai.Workload.Dag.Iteration.{Iteration}
use edge_orchestrator_ai.Workload.Dag.Graph.{IsWellFormed, IsClosed}
use edge_orchestrator_ai.Workload.Dag.Kahn.{topological_order}
use edge_orchestrator_ai.Workload.Dag.Kahn.Order.{order-tasks}
use edge_orchestrator_ai.Scheduler.Plan.{
  PeerInfo, ClusterView, SchedulingDecision, local_capacity, threshold_offload, fallback,
}
use edge_orchestrator_ai.Scheduler.Reachable.{NamesReachable, later-NamesReachable, all_snoc}
use edge_orchestrator_ai.Scheduler.Rounds.{each_task-keeps, each_task-notes}
use edge_orchestrator_ai.Scheduler.Threshold.{
  ThresholdPolicyConfig, PeerState, Simulation, peer_state, peer_states, assign_task, start,
  simulated, schedule, place_locally, fall_back, offload,
}
use edge_orchestrator_ai.Scheduler.Threshold.Step.{assign_task-Branches, decided-assign_task}

first-NamesReachable :
    {F : Type 0} (peer : PeerInfo F) (peers : List (PeerInfo F)) (p : PeerState F)
    → peer.reachable ≡ true
    → ((i : ℕ) → get_elem? (peer_states peers) i ≡ some p → NamesReachable peers p.id)
    → (i : ℕ) → get_elem? (peer_state peer ∷ peer_states peers) i ≡ some p
    → NamesReachable (peer ∷ peers) p.id
first-NamesReachable peer peers p up rest zero at = (peer, Memᴰ.head refl, up, cc)
first-NamesReachable peer peers p up rest (suc j) at =
    later-NamesReachable peer peers p.id (rest j at)

pub peer_states-NamesReachable :
    {F : Type 0} (peers : List (PeerInfo F)) (i : ℕ) (p : PeerState F)
    → get_elem? (peer_states peers) i ≡ some p
    → NamesReachable peers p.id
unfolding peer_states
peer_states-NamesReachable [] i p e = cc
peer_states-NamesReachable (peer ∷ peers) i p e =
    let rest = λ (j : ℕ). peer_states-NamesReachable peers j p in
    elim (Bool-cases peer.reachable) [
      | inl up ↦ first-NamesReachable peer peers p up rest i (rw (up, peer_states) at e)
      | inr down ↦ later-NamesReachable peer peers p.id (rest i (rw (down, peer_states) at e))
    ]

module _ (f : Floats) (config : ThresholdPolicyConfig f.Float) (local : ResourceSnapshot f.Float)
    (cluster : ClusterView f.Float) where
  open f use {Float}

  -- A task stays on this node, or it is offloaded to a reachable peer.
  abbrev pub Allowed : SchedulingDecision → Type 0
  Allowed d =
      ((d.assigned_node ≡ local.node_id) × ((d.reason ≡ local_capacity) ⊎ (d.reason ≡ fallback)))
      ⊎ ((d.reason ≡ threshold_offload) × NamesReachable cluster.peers d.assigned_node)

  record Inv (s : Simulation Float) : Type 0 where
    named :
        (i : ℕ) (p : PeerState Float)
        → get_elem? s.peers i ≡ some p
        → NamesReachable cluster.peers p.id
    allowed : (d : SchedulingDecision) → Memᴰ d s.decisions → Allowed d

  start-Inv : Inv (start f local cluster)
  unfolding start
  start-Inv = record {
    named = λ i p e. peer_states-NamesReachable cluster.peers i p e;
    allowed = λ d m. absurd (Memᴰ.not-nil m);
  }

  module _ (id : TaskId) (task : Task) (s : Simulation Float) (inv : Inv s) where
    place_locally-Inv : Inv (place_locally f config local id task s)
    unfolding place_locally
    place_locally-Inv = record {
      named = inv.named;
      allowed = all_snoc Allowed s.decisions _ inv.allowed (inl (refl, inl refl));
    }

    fall_back-Inv : Inv (fall_back f config local id task s)
    unfolding fall_back
    fall_back-Inv = record {
      named = inv.named;
      allowed = all_snoc Allowed s.decisions _ inv.allowed (inl (refl, inr refl));
    }

    offload-Inv :
        (best : ℕ) (p : PeerState Float)
        → get_elem? s.peers best ≡ some p
        → Inv (offload f config local id task best p s)
    unfolding offload
    offload-Inv best p at = record {
      named = λ i q e. elim (get_elem?-set s.peers best i _ e) [
        | inl (_, same) ↦ rw same (inv.named best p at)
        | inr before ↦ inv.named i q before
      ];
      allowed = all_snoc Allowed s.decisions _ inv.allowed (inr (refl, inv.named best p at));
    }

    assign_task-Inv : Inv (assign_task f config local id task s)
    assign_task-Inv = elim (assign_task-Branches f config local id task s) [
      | inl (_, e) ↦ rw e place_locally-Inv
      | inr (_, inl (p, at, e)) ↦ rw e (offload-Inv _ p at)
      | inr (_, inr (_, e)) ↦ rw e fall_back-Inv
    ]

  -- Each decision of the threshold policy keeps its task on this node, as local capacity or as a
  -- fallback, or offloads it to the id of a reachable peer of the cluster.
  pub schedule-Allowed :
      (it : Iteration) (g : WorkloadDag) (now : Timestamp) (d : SchedulingDecision)
      → Memᴰ d (schedule f config local it g cluster now).decisions
      → Allowed d
  unfolding schedule simulated
  schedule-Allowed it g now d m =
      let inv =
        each_task-keeps g (assign_task f config local) Inv
          (λ id task s e inv. assign_task-Inv id task s inv) (topological_order it g)
          (start f local cluster) start-Inv in
      inv.allowed d m

  -- For a well-formed graph whose edges join tasks, a plan of the threshold policy decides each
  -- task of the topological order once, in that order.
  pub schedule-decides_order :
      (it : Iteration) (g : WorkloadDag) (now : Timestamp)
      → IsWellFormed g
      → IsClosed g
      → map (λ d. d.task_id) (schedule f config local it g cluster now).decisions
        ≡ topological_order it g
  unfolding schedule simulated start
  schedule-decides_order it g now wf closed =
      each_task-notes g (assign_task f config local) (λ s. Unit {0}) (λ id task s h. tt)
        (λ s. map (λ d. d.task_id) s.decisions)
        (λ id task s h. decided-assign_task f config local id task s) (topological_order it g)
        (start f local cluster) tt (order-tasks it g wf closed)
