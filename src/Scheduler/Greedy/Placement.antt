-- ===== src/Scheduler/Greedy/Placement.antt =====
-- Where the greedy policy may place a task.
use mathlib.Core.List.{Memᴰ, map-append}
use mathlib.Core.List.Memᴰ
use edge_orchestrator_ai.Prelude.{
  ℕ, zero, suc, ◌≡◌, refl, ap, ◌∙◌, ◌⊎◌, inl, inr, true, false, List, [], ◌∷◌, ◌++◌, map, some,
  get_elem?, get_elem?-set, set, arith, ◌==◌, if◌then◌else◌, Bool-cases,
}
use edge_orchestrator_ai.Core.Floats.{Floats}
use edge_orchestrator_ai.Core.Types.{TaskId, Timestamp, ResourceSnapshot}
use edge_orchestrator_ai.Workload.Dag.{Task, WorkloadDag}
use edge_orchestrator_ai.Workload.Dag.Iteration.{Iteration}
use edge_orchestrator_ai.Workload.Dag.Graph.{IsWellFormed, IsClosed}
use edge_orchestrator_ai.Workload.Dag.Kahn.{topological_order}
use edge_orchestrator_ai.Workload.Dag.Kahn.Order.{order-tasks}
use edge_orchestrator_ai.Scheduler.Plan.{
  PeerInfo, ClusterView, SchedulingDecision, local_capacity, least_loaded,
}
use edge_orchestrator_ai.Scheduler.Reachable.{NamesReachable, later-NamesReachable, all_snoc}
use edge_orchestrator_ai.Scheduler.Rounds.{each_task-keeps, each_task-notes}
use edge_orchestrator_ai.Scheduler.Greedy.{
  NodeState, Assignment, node_state, peer_nodes, first_nodes, loaded, assign_to, best_node,
  assign_task, assigned, schedule,
}
use edge_orchestrator_ai.Scheduler.Greedy.Step.{best_node_lem}

first-NamesReachable :
    {F : Type 0} (peer : PeerInfo F) (peers : List (PeerInfo F)) (n : NodeState F)
    → peer.reachable ≡ true
    → ((i : ℕ) → get_elem? (peer_nodes peers) i ≡ some n → NamesReachable peers n.id)
    → (i : ℕ) → get_elem? (node_state peer.node_id peer.resources ∷ peer_nodes peers) i ≡ some n
    → NamesReachable (peer ∷ peers) n.id
first-NamesReachable peer peers n up rest zero at = (peer, Memᴰ.head refl, up, cc)
first-NamesReachable peer peers n up rest (suc j) at =
    later-NamesReachable peer peers n.id (rest j at)

peer_nodes-NamesReachable :
    {F : Type 0} (peers : List (PeerInfo F)) (i : ℕ) (n : NodeState F)
    → get_elem? (peer_nodes peers) i ≡ some n
    → NamesReachable peers n.id
unfolding peer_nodes
peer_nodes-NamesReachable [] i n e = cc
peer_nodes-NamesReachable (peer ∷ peers) i n e =
    let rest = λ (j : ℕ). peer_nodes-NamesReachable peers j n in
    elim (Bool-cases peer.reachable) [
      | inl up ↦ first-NamesReachable peer peers n up rest i (rw (up, peer_nodes) at e)
      | inr down ↦ later-NamesReachable peer peers n.id (rest i (rw (down, peer_nodes) at e))
    ]

-- A write leaves a list that has a first entry with one.
first_set :
    {A : Type 0} (xs : List A) (i : ℕ) (v : A) {x : A}
    → get_elem? xs 0 ≡ some x
    → (y : A) × (get_elem? (set xs i v) 0 ≡ some y)
first_set [] i v e = cc
first_set (x ∷ xs) zero v e = (v, refl)
first_set (x ∷ xs) (suc i) v e = (x, refl)

module _ (f : Floats) where
  open f use {Float}

  module _ (local : ResourceSnapshot Float) (cluster : ClusterView Float) where
    -- A task stays on this node, or it goes to a reachable peer.
    abbrev pub Allowed : SchedulingDecision → Type 0
    Allowed d =
        ((d.assigned_node ≡ local.node_id) × (d.reason ≡ local_capacity))
        ⊎ ((d.reason ≡ least_loaded) × NamesReachable cluster.peers d.assigned_node)

    abbrev Named : ℕ → NodeState Float → Type 0
    Named zero n = n.id ≡ local.node_id
    Named (suc i) n = NamesReachable cluster.peers n.id

    record Inv (s : Assignment Float) : Type 0 where
      local_first : (n : NodeState Float) × (get_elem? s.nodes 0 ≡ some n)
      named : (i : ℕ) (n : NodeState Float) → get_elem? s.nodes i ≡ some n → Named i n
      allowed : (d : SchedulingDecision) → Memᴰ d s.decisions → Allowed d

    -- Writing the state of a node back keeps its name.
    loaded-Named : (task : Task) (i : ℕ) (n : NodeState Float) → Named i n → Named i (loaded task n)
    loaded-Named task zero n h = h
    loaded-Named task (suc i) n h = h

    placed-Allowed :
        (id : TaskId) (i : ℕ) (n : NodeState Float)
        → Named i n
        → Allowed (record {
          task_id = id;
          assigned_node = n.id;
          reason = if i == 0 then local_capacity else least_loaded;
        })
    placed-Allowed id zero n h = inl (h, refl)
    placed-Allowed id (suc i) n h =
        let later : (suc i == 0) ≡ false = ground arith in inr (rw later refl, h)

    assign_to-Inv :
        (id : TaskId) (task : Task) (s : Assignment Float) (best : ℕ) (n : NodeState Float)
        → get_elem? s.nodes best ≡ some n
        → Inv s
        → Inv (assign_to id task best n s)
    unfolding assign_to
    assign_to-Inv id task s best n at inv = record {
      local_first = let (l, there) = inv.local_first in first_set s.nodes best _ there;
      named = λ i q e. elim (get_elem?-set s.nodes best i _ e) [
        | inl (there, same) ↦ rw same (loaded-Named task i n (inv.named i n (rw there at)))
        | inr before ↦ inv.named i q before
      ];
      allowed =
          all_snoc Allowed s.decisions _ inv.allowed
            (placed-Allowed id best n (inv.named best n at));
    }

    abbrev best_of : Task → Assignment Float → ℕ
    best_of task s = best_node f task s.nodes

    -- The index is never out of range, so that each round assigns its task.
    assign_task-assigns :
        (id : TaskId) (task : Task) (s : Assignment Float)
        → Inv s
        → (n : NodeState Float) × (get_elem? s.nodes (best_of task s) ≡ some n)
          × (assign_task f id task s ≡ assign_to id task (best_of task s) n s)
    unfolding assign_task
    assign_task-assigns id task s inv = elim (best_node_lem f task s.nodes) [
      | inl (n, at, _, _) ↦ (n, at, rw (at, assign_task) refl)
      | inr (e, _) ↦
          let (n, first) = inv.local_first in
          let at : get_elem? s.nodes (best_of task s) ≡ some n = rw e first in
          (n, at, rw (at, assign_task) refl)
    ]

    assign_task-Inv :
        (id : TaskId) (task : Task) (s : Assignment Float) → Inv s → Inv (assign_task f id task s)
    assign_task-Inv id task s inv =
        let (n, at, e) = assign_task-assigns id task s inv in
        rw e (assign_to-Inv id task s (best_of task s) n at inv)

    first_nodes-Inv : Inv (first_nodes local cluster)
    unfolding first_nodes
    first_nodes-Inv = record {
      local_first = (_, refl);
      named = names;
      allowed = λ d m. absurd (Memᴰ.not-nil m);
    }
      where
        names :
            (i : ℕ) (n : NodeState Float)
            → get_elem? (first_nodes local cluster).nodes i ≡ some n
            → Named i n
        names zero n e = cc
        names (suc i) n e = peer_nodes-NamesReachable cluster.peers i n e

    -- Each decision of the greedy policy keeps its task on this node, as local capacity, or sends
    -- it to the id of a reachable peer of the cluster.
    pub schedule-places :
        (it : Iteration) (g : WorkloadDag) (now : Timestamp) (d : SchedulingDecision)
        → Memᴰ d (schedule f local it g cluster now).decisions
        → Allowed d
    unfolding schedule assigned
    schedule-places it g now d m =
        let inv =
          each_task-keeps g (assign_task f) Inv (λ id task s e. assign_task-Inv id task s)
            (topological_order it g) (first_nodes local cluster) first_nodes-Inv in
        inv.allowed d m

    abbrev decided : Assignment Float → List TaskId
    decided s = map (λ d. d.task_id) s.decisions

    assign_task-notes :
        (id : TaskId) (task : Task) (s : Assignment Float)
        → Inv s
        → decided (assign_task f id task s) ≡ decided s ++ id ∷ []
    unfolding assign_to
    assign_task-notes id task s inv =
        let (n, at, e) = assign_task-assigns id task s inv in
        ap decided e ∙ map-append _ s.decisions _

    -- For a well-formed graph whose edges join tasks, a plan of the greedy policy assigns each
    -- task of the topological order once, in that order.
    pub schedule-assigns_order :
        (it : Iteration) (g : WorkloadDag) (now : Timestamp)
        → IsWellFormed g
        → IsClosed g
        → map (λ d. d.task_id) (schedule f local it g cluster now).decisions
          ≡ topological_order it g
    unfolding schedule assigned first_nodes
    schedule-assigns_order it g now wf closed =
        each_task-notes g (assign_task f) Inv assign_task-Inv decided assign_task-notes
          (topological_order it g) (first_nodes local cluster) first_nodes-Inv
          (order-tasks it g wf closed)
