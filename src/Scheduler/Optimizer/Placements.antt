-- ===== src/Scheduler/Optimizer/Placements.antt =====
-- Where the optimizer policy may place a task.
use mathlib.Core.List.{Memᴰ}
use edge_orchestrator_ai.Prelude.{
  ℕ, ◌≡◌, refl, sym, ◌∙◌, ◌⊎◌, inl, inr, true, List, [], ◌∷◌, Option, none, some, ltb, length,
  get_elem?, string_key, Bool-cases, elem, elem_self, if_neg, String_discrete,
}
use edge_orchestrator_ai.Core.Floats.{Floats}
use edge_orchestrator_ai.Core.Types.{NodeId, TaskId, Timestamp, ResourceSnapshot}
use edge_orchestrator_ai.Workload.Dag.{Task, WorkloadDag, get_task}
use edge_orchestrator_ai.Workload.Dag.Iteration.{Iteration}
use edge_orchestrator_ai.Workload.Dag.Kahn.{topological_order}
use edge_orchestrator_ai.Scheduler.Plan.{
  PeerInfo, ClusterView, SchedulingDecision, optimization_result,
}
use edge_orchestrator_ai.Scheduler.Reachable.{NamesReachable, later-NamesReachable}
use edge_orchestrator_ai.Scheduler.Rounds.{each_task-keeps}
use edge_orchestrator_ai.Scheduler.Optimizer.{
  OptimizerPolicyConfig, Sorting, Random, NodeBudget, names, charge, node_budgets, peer_budgets,
}
use edge_orchestrator_ai.Scheduler.Optimizer.CriticalPath.{keep_local, critical_path_assignment}
use edge_orchestrator_ai.Scheduler.Optimizer.BinPack.{
  Packing, pack, pack_on, chosen, remaining, bin_pack_remaining,
}
use edge_orchestrator_ai.Scheduler.Optimizer.LocalSearch.{
  Search, local_search_improve, searched, search_from, placed, place, place_at, Placement, release,
  discharge,
}
use edge_orchestrator_ai.Scheduler.Optimizer.Moves.{
  Round, skips, stays, accepts, takes_back, improve-keeps,
}
use edge_orchestrator_ai.Scheduler.Optimizer.Policy.{packed, schedule}
use edge_orchestrator_ai.Scheduler.Optimizer.Names.{
  All, All-snoc, All-alter, All-mem, names-alter, names-account, elem-names,
}

-- A decision names one of the nodes, and gives the optimizer's reason.
abbrev pub Within : List NodeId → SchedulingDecision → Type 0
Within ids d = (elem d.assigned_node ids ≡ true) × (d.reason ≡ optimization_result)

keep_local-Within :
    (ids : List NodeId) (node : NodeId) (critical order : List TaskId)
    → elem node ids ≡ true
    → All (Within ids) (keep_local node critical order)
unfolding keep_local
keep_local-Within ids node critical [] h = tt
keep_local-Within ids node critical (x ∷ order) h =
    let rest = keep_local-Within ids node critical order h in
    elim (Bool-cases (elem x critical)) [
      | inl here ↦ rw here ((h, refl), rest)
      | inr absent ↦ rw absent rest
    ]

abbrev PackedWithin : List NodeId → Packing → Type 0
PackedWithin ids s = (names s.nodes ≡ ids) × All (Within ids) s.decisions

pack-PackedWithin :
    (ids : List NodeId) (id : TaskId) (task : Task) (s : Packing)
    → PackedWithin ids s
    → PackedWithin ids (pack id task s)
unfolding pack
pack-PackedWithin ids id task s h =
    at (chosen task s.nodes) (get_elem? s.nodes (chosen task s.nodes)) refl
  where
    at :
        (best : ℕ) (o : Option NodeBudget)
        → get_elem? s.nodes best ≡ o
        → PackedWithin ids (pack_on id task best o s)
    at best none e = h
    at best (some node) e = (
      names-alter best (charge task id) s.nodes (λ n. refl) ∙ h.0,
      All-snoc (Within ids) s.decisions _ h.1 (rw h.0 at (elem-names s.nodes best node e), refl),
    )

abbrev pub SearchWithin : List NodeId → Search → Type 0
SearchWithin ids s = (names s.nodes ≡ ids) × All (Within ids) s.decisions

place-names :
    (g : WorkloadDag) (node_index : List (NodeId × ℕ)) (ds : List SchedulingDecision)
    (p : Placement)
    → names (place g node_index ds p).nodes ≡ names p.nodes
unfolding place
place-names g node_index [] p = refl
place-names g node_index (d ∷ ds) p = place-names g node_index ds _ ∙ put (get_task d.task_id g) _
  where
    put : (o : Option Task) (at : Option ℕ) → names (place_at d o at p).nodes ≡ names p.nodes
    put none at = refl
    put (some task) none = refl
    put (some task) (some idx) = names-alter idx (charge task d.task_id) p.nodes (λ n. refl)

module _ (f : Floats) (config : OptimizerPolicyConfig f.Float) (sorting : Sorting) (random : Random)
    (it : Iteration) (g : WorkloadDag) where
  pub Round-SearchWithin :
      (ids : List NodeId) (s s' : Search)
      → Round f config random it g s s'
      → SearchWithin ids s
      → SearchWithin ids s'
  Round-SearchWithin ids s s' (skips e) h = rw e h
  Round-SearchWithin ids s s' (stays idx d task at known e) h = rw e h
  Round-SearchWithin ids s s' (accepts idx d task to target at known there shorter e) h = rw e (
    names-alter to (charge task d.task_id) _ (λ n. refl)
        ∙ names-alter _ (release task d.task_id) s.nodes (λ n. refl)
        ∙ h.0,
    All-alter (Within ids) idx _ s.decisions
        (λ x w. (rw h.0 at (elem-names s.nodes to target there), w.1)) h.1,
  )
  Round-SearchWithin ids s s' (takes_back idx d task to at known e) h = rw e (
    names-alter _ (charge task d.task_id) _ (λ n. refl)
        ∙ names-alter to (discharge task) _ (λ n. refl)
        ∙ names-alter to (charge task d.task_id) _ (λ n. refl)
        ∙ names-alter _ (release task d.task_id) s.nodes (λ n. refl)
        ∙ h.0,
    h.1,
  )

  module _ (local : ResourceSnapshot f.Float) (cluster : ClusterView f.Float)
      (now : Timestamp) where
    abbrev node_names : List NodeId
    node_names = names (node_budgets local cluster)

    pub packed-Within :
        All (Within node_names) (packed f config sorting random it g local cluster now).decisions
    unfolding bin_pack_remaining critical_path_assignment
    packed-Within =
        let kept = critical_path_assignment it g local.node_id in
        let first =
          keep_local-Within node_names local.node_id _ (topological_order it g)
            (elem_self local.node_id (names (peer_budgets cluster.peers))) in
        (each_task-keeps g pack (PackedWithin node_names)
          (λ id task s e. pack-PackedWithin node_names id task s) (remaining sorting it g kept) _
          (names-account g kept (node_budgets local cluster), first)).1

    pub search_from-SearchWithin :
        (ds : List SchedulingDecision)
        → All (Within node_names) ds
        → SearchWithin node_names (
            search_from f config random it g ds
              (placed f config random it g (node_budgets local cluster) ds))
    search_from-SearchWithin ds h =
        (place-names g _ ds (record { nodes = node_budgets local cluster; assignment = [] }), h)

    schedule-Within :
        All (Within node_names) (schedule f config sorting random it g local cluster now).decisions
    unfolding schedule local_search_improve
    schedule-Within =
        let ds = (packed f config sorting random it g local cluster now).decisions in
        let start =
          search_from f config random it g ds
            (placed f config random it g (node_budgets local cluster) ds) in
        let end : All (Within node_names)
            (searched f config random it g (node_budgets local cluster) ds).decisions =
          (improve-keeps f config random it g (SearchWithin node_names)
            (Round-SearchWithin node_names) config.max_iterations start (random.seeded 42)
            (search_from-SearchWithin ds packed-Within)).1 in
        elim (Bool-cases (ltb (length ds) 2)) [
          | inl few ↦ rw few packed-Within
          | inr many ↦ elim (Bool-cases (ltb (length (node_budgets local cluster)) 2)) [
            | inl alone ↦ rw (many, alone) packed-Within
            | inr others ↦ rw (many, others) end
          ]
        ]

    -- A decision of the optimizer names this node or a reachable peer.
    abbrev pub Allowed : SchedulingDecision → Type 0
    Allowed d =
        ((d.assigned_node ≡ local.node_id) ⊎ NamesReachable cluster.peers d.assigned_node)
        × (d.reason ≡ optimization_result)

    peer_budgets-NamesReachable :
        (peers : List (PeerInfo f.Float)) (id : NodeId)
        → elem id (names (peer_budgets peers)) ≡ true
        → NamesReachable peers id
    unfolding peer_budgets elem
    peer_budgets-NamesReachable [] id h = cc
    peer_budgets-NamesReachable (peer ∷ peers) id h = elim (Bool-cases peer.reachable) [
      | inl up ↦ elim (String_discrete id peer.node_id) [
        | yes p ↦ (peer, Memᴰ.head refl, up, sym p)
        | no n ↦
            let rest =
              rw (if_neg (String_discrete id peer.node_id) n) at (rw (up, peer_budgets) at h) in
            later-NamesReachable peer peers id (peer_budgets-NamesReachable peers id rest)
      ]
      | inr down ↦
          later-NamesReachable peer peers id
            (peer_budgets-NamesReachable peers id (rw (down, peer_budgets) at h))
    ]

    -- Each decision of the optimizer policy names this node or a reachable peer of the cluster,
    -- and has the reason OptimizationResult.
    pub optimizer-Allowed :
        (d : SchedulingDecision)
        → Memᴰ d (schedule f config sorting random it g local cluster now).decisions
        → Allowed d
    unfolding elem
    optimizer-Allowed d m =
        let (named, reason) = All-mem (Within node_names) _ d schedule-Within m in
        elim (String_discrete d.assigned_node local.node_id) [
          | yes p ↦ (inl p, reason)
          | no n ↦ (
            inr (
                peer_budgets-NamesReachable cluster.peers d.assigned_node
                  (rw (if_neg (String_discrete d.assigned_node local.node_id) n) at named)),
            reason,
          )
        ]
