-- ===== src/Scheduler/Optimizer/Decides.antt =====
-- Which tasks a plan of the optimizer policy decides.
use mathlib.Core.List.{map-append}
use edge_orchestrator_ai.Prelude.{
  ℕ, zero, suc, ◌+◌, ◌≤◌, ◌≡◌, refl, ap, ◌∙◌, true, false, List, [], ◌∷◌, ◌++◌, Option, none, some,
  ltb, leb, length, get_elem?, inl, inr, if◌then◌else◌, string_key, Bool-cases, elem, count,
  elem-count, count-elem, arith, count-append,
}
use edge_orchestrator_ai.Prelude.HashMap.{keys}
use edge_orchestrator_ai.Core.Floats.{Floats}
use edge_orchestrator_ai.Core.Types.{NodeId, TaskId, Timestamp, ResourceSnapshot}
use edge_orchestrator_ai.Workload.Dag.{Task, WorkloadDag, get_task}
use edge_orchestrator_ai.Workload.Dag.Graph.{IsWellFormed, IsClosed}
use edge_orchestrator_ai.Workload.Dag.Iteration.{Iteration}
use edge_orchestrator_ai.Workload.Dag.Kahn.{topological_order}
use edge_orchestrator_ai.Workload.Dag.Kahn.Order.{order-tasks}
use edge_orchestrator_ai.Scheduler.Plan.{ClusterView, SchedulingDecision}
use edge_orchestrator_ai.Scheduler.Rounds.{each_task-notes}
use edge_orchestrator_ai.Scheduler.Optimizer.{
  OptimizerPolicyConfig, Sorting, Random, NodeBudget, alter, decided, charge, node_budgets,
}
use edge_orchestrator_ai.Scheduler.Optimizer.CriticalPath.{
  keep_local, critical_path_assignment, traced,
}
use edge_orchestrator_ai.Scheduler.Optimizer.BinPack.{
  Packing, unassigned, pack, pack_on, chosen, best_fit, remaining, bin_pack_remaining, account,
  costlier, charge_named, account_for,
}
use edge_orchestrator_ai.Scheduler.Optimizer.LocalSearch.{
  Search, local_search_improve, searched, search_from, placed,
}
use edge_orchestrator_ai.Scheduler.Optimizer.Moves.{
  Round, skips, stays, accepts, takes_back, improve-keeps,
}
use edge_orchestrator_ai.Scheduler.Optimizer.Policy.{packed, schedule}

count-keep_local :
    (node : NodeId) (critical : List TaskId) (ids : List TaskId) (id : TaskId)
    → count id (decided (keep_local node critical ids))
      ≡ (if elem id critical then count id ids else 0)
unfolding keep_local count
count-keep_local node critical [] id = ground arith
count-keep_local node critical (x ∷ ids) id =
    let same = λ (e : id ≡ x). ap (λ y. elem y critical) e in
    ground (arith, count-keep_local node critical ids id, same)

count-unassigned :
    (assigned ids : List TaskId) (id : TaskId)
    → count id (unassigned assigned ids) ≡ (if elem id assigned then 0 else count id ids)
unfolding unassigned count
count-unassigned assigned [] id = ground arith
count-unassigned assigned (x ∷ ids) id =
    let same = λ (e : id ≡ x). ap (λ y. elem y assigned) e in
    ground (arith, count-unassigned assigned ids id, same)

-- What the first phase keeps here and what the second has left are the order.
count-split :
    (node : NodeId) (critical ids : List TaskId) (id : TaskId)
    → let kept = decided (keep_local node critical ids) in
      count id kept + count id (unassigned kept ids) ≡ count id ids
count-split node critical ids id =
    let kept : List TaskId = decided (keep_local node critical ids) in
    let first = count-keep_local node critical ids id in
    let second = count-unassigned kept ids id in
    ground (arith, first, second, elem-count id kept, count-elem id kept)

pub decided-alter :
    (idx : ℕ) (node : NodeId) (ds : List SchedulingDecision)
    → decided (alter idx (λ d. record d { assigned_node = node }) ds) ≡ decided ds
decided-alter idx node [] = refl
decided-alter zero node (d ∷ ds) = refl
decided-alter (suc idx) node (d ∷ ds) = ap (λ l. d.task_id ∷ l) (decided-alter idx node ds)

-- There is a node.
abbrev Staffed : List NodeBudget → Type 0
Staffed nodes = 1 ≤ length nodes

length-alter :
    {A : Type 0} (i : ℕ) (change : A → A) (xs : List A) → length (alter i change xs) ≡ length xs
length-alter i change [] = refl
length-alter zero change (x ∷ xs) = refl
length-alter (suc i) change (x ∷ xs) = ap suc (length-alter i change xs)

-- An index in range has an entry.
in_range :
    {A : Type 0} (xs : List A) (i : ℕ)
    → leb (length xs) i ≡ false
    → (x : A) × (get_elem? xs i ≡ some x)
in_range [] i h = absurd (ground arith)
in_range (x ∷ xs) zero h = (x, refl)
in_range (x ∷ xs) (suc i) h = in_range xs i (ground arith)

pub chosen_there :
    (task : Task) (nodes : List NodeBudget)
    → Staffed nodes
    → (node : NodeBudget) × (get_elem? nodes (chosen task nodes) ≡ some node)
chosen_there task nodes h = elim (Bool-cases (leb (length nodes) (best_fit task nodes))) [
  | inl none_fits ↦ rw none_fits (in_range nodes 0 (ground arith))
  | inr fits ↦ rw fits (in_range nodes (best_fit task nodes) fits)
]

pub pack-appends :
    (id : TaskId) (task : Task) (s : Packing)
    → Staffed s.nodes
    → (node : NodeBudget) × (get_elem? s.nodes (chosen task s.nodes) ≡ some node)
      × (pack id task s ≡ pack_on id task (chosen task s.nodes) (some node) s)
unfolding pack
pack-appends id task s h = let (node, at) = chosen_there task s.nodes h in (node, at, rw at refl)

pack-Staffed :
    (id : TaskId) (task : Task) (s : Packing) → Staffed s.nodes → Staffed (pack id task s).nodes
pack-Staffed id task s h =
    let (node, at, e) = pack-appends id task s h in
    rw e (omega (arith, length-alter (chosen task s.nodes) (charge task id) s.nodes))

pack-notes :
    (id : TaskId) (task : Task) (s : Packing)
    → Staffed s.nodes
    → decided (pack id task s).decisions ≡ decided s.decisions ++ id ∷ []
pack-notes id task s h =
    let (node, at, e) = pack-appends id task s h in
    ap (λ (p : Packing). decided p.decisions) e ∙ map-append _ s.decisions _

length-charge_named :
    (name : NodeId) (task : Task) (id : TaskId) (nodes : List NodeBudget)
    → length (charge_named name task id nodes) ≡ length nodes
unfolding charge_named
length-charge_named name task id [] = refl
length-charge_named name task id (node ∷ nodes) =
    ground (arith, length-charge_named name task id nodes)

account-Staffed :
    (g : WorkloadDag) (ds : List SchedulingDecision) (nodes : List NodeBudget)
    → Staffed nodes
    → Staffed (account g ds nodes)
unfolding account
account-Staffed g [] nodes h = h
account-Staffed g (d ∷ ds) nodes h = account-Staffed g ds _ (counted (get_task d.task_id g))
  where
    counted : (o : Option Task) → Staffed (account_for d o nodes)
    counted none = h
    counted (some task) = omega (arith, length-charge_named d.assigned_node task d.task_id nodes)

module _ (sorting : Sorting) (it : Iteration) (g : WorkloadDag) (wf : IsWellFormed g)
    (closed : IsClosed g) where
  remaining-known :
      (ds : List SchedulingDecision) (id : TaskId)
      → elem id (remaining sorting it g ds) ≡ true
      → elem id (keys g.tasks) ≡ true
  remaining-known ds id m =
      let order = topological_order it g in
      let left = unassigned (decided ds) order in
      let kept = sorting.count-sort (costlier g) left id in
      let some_left = elem-count id (remaining sorting it g ds) m in
      order-tasks it g wf closed id
        (count-elem id order (ground (arith, count-unassigned (decided ds) order id, kept)))

  pub decided-bin_pack_remaining :
      {F : Type 0} (local : ResourceSnapshot F) (cluster : ClusterView F)
      (ds : List SchedulingDecision)
      → decided (bin_pack_remaining sorting it g local cluster ds)
        ≡ decided ds ++ remaining sorting it g ds
  unfolding bin_pack_remaining
  decided-bin_pack_remaining local cluster ds =
      each_task-notes g pack (λ s. Staffed s.nodes) pack-Staffed (λ s. decided s.decisions)
        pack-notes (remaining sorting it g ds) _
        (account-Staffed g ds (node_budgets local cluster) (omega arith)) (remaining-known ds)

  module _ (f : Floats) (config : OptimizerPolicyConfig f.Float) (random : Random)
      (local : ResourceSnapshot f.Float) (cluster : ClusterView f.Float) (now : Timestamp) where
    pub count-packed :
        (id : TaskId)
        → count id (decided (packed f config sorting random it g local cluster now).decisions)
          ≡ count id (topological_order it g)
    unfolding critical_path_assignment
    count-packed id =
        let order = topological_order it g in
        let critical = (traced it g order).0 in
        let kept = keep_local local.node_id critical order in
        let left = unassigned (decided kept) order in
        ap (λ l. count id l) (decided-bin_pack_remaining local cluster kept)
        ∙ omega (
          arith,
          count-append id (decided kept) (remaining sorting it g kept),
          sorting.count-sort (costlier g) left id,
          count-split local.node_id critical order id,
        )

    pub Round-decided :
        (s s' : Search)
        → Round f config random it g s s'
        → decided s'.decisions ≡ decided s.decisions
    Round-decided s s' (skips e) = ap (λ (t : Search). decided t.decisions) e
    Round-decided s s' (stays idx d task at known e) = ap (λ (t : Search). decided t.decisions) e
    Round-decided s s' (takes_back idx d task to at known e) =
        ap (λ (t : Search). decided t.decisions) e
    Round-decided s s' (accepts idx d task to target at known there shorter e) =
        ap (λ (t : Search). decided t.decisions) e ∙ decided-alter idx target.id s.decisions

    -- For a well-formed graph whose edges join tasks, and whatever the sort's order and the
    -- random draws, a plan of the optimizer policy decides each id as often as it is in the
    -- topological order.
    pub schedule-decides_once :
        (id : TaskId)
        → count id (decided (schedule f config sorting random it g local cluster now).decisions)
          ≡ count id (topological_order it g)
    unfolding schedule local_search_improve
    schedule-decides_once id =
        let plan = packed f config sorting random it g local cluster now in
        let nodes = node_budgets local cluster in
        let same = decided-searched nodes plan.decisions in
        elim (Bool-cases (ltb (length plan.decisions) 2)) [
          | inl few ↦ rw few (count-packed id)
          | inr many ↦ elim (Bool-cases (ltb (length nodes) 2)) [
            | inl alone ↦ rw (many, alone) (count-packed id)
            | inr others ↦ rw (many, others, same) (count-packed id)
          ]
        ]
      where
        decided-searched :
            (nodes : List NodeBudget) (ds : List SchedulingDecision)
            → decided (searched f config random it g nodes ds).decisions ≡ decided ds
        decided-searched nodes ds =
            improve-keeps f config random it g (λ s. decided s.decisions ≡ decided ds)
              (λ s s' r e. Round-decided s s' r ∙ e) config.max_iterations
              (search_from f config random it g ds (placed f config random it g nodes ds))
              (random.seeded 42) refl
