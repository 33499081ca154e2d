-- ===== src/Scheduler/Optimizer/CriticalPath.antt =====
-- critical_path_assignment of src/scheduler/optimizer_policy.cpp: the longest distance to each task,
-- the path behind the farthest one, and the decisions that keep it on this node.
use edge_orchestrator_ai.Prelude.{
  ℕ, zero, suc, ◌+◌, Bool, true, false, List, [], ◌∷◌, Option, none, some, ltb, elem, length,
  if◌then◌else◌, string_key, String_discrete, ite,
}
use edge_orchestrator_ai.Prelude.HashMap.{find_or, assign, emplace}
use edge_orchestrator_ai.Core.Types.{NodeId, TaskId}
use edge_orchestrator_ai.Workload.Dag.{Task, WorkloadDag, get_task, dependents, dependencies_of}
use edge_orchestrator_ai.Workload.Dag.Iteration.{Iteration}
use edge_orchestrator_ai.Workload.Dag.Kahn.{topological_order}
use edge_orchestrator_ai.Scheduler.Plan.{SchedulingDecision}
use edge_orchestrator_ai.Scheduler.Rounds.{each_task}
use edge_orchestrator_ai.Scheduler.Optimizer.{optimized}

pub record Distances : Type 0 where
  pub dist : List (TaskId × ℕ)
  pub predecessor : List (TaskId × TaskId)

unfoldable pub zero_distances : List TaskId → List (TaskId × ℕ) → List (TaskId × ℕ)
zero_distances [] dist = dist
zero_distances (id ∷ ids) dist = zero_distances ids (assign id 0 dist)

-- dist[u] and dist[v] insert a zero where there is no entry.
abbrev pub relax_edge : TaskId → TaskId → Option Task → Distances → Distances
relax_edge u v none s = s
relax_edge u v (some v_task) s =
    let candidate = find_or 0 u s.dist + v_task.profile.compute_cost in
    let dist = emplace v 0 (emplace u 0 s.dist) in
    if ltb (find_or 0 v s.dist) candidate
    then record { dist = assign v candidate dist; predecessor = assign v u s.predecessor }
    else record s { dist = dist }

unfoldable pub relax_edges : WorkloadDag → TaskId → List TaskId → Distances → Distances
relax_edges g u [] s = s
relax_edges g u (v ∷ vs) s = relax_edges g u vs (relax_edge u v (get_task v g) s)

abbrev pub is_empty : List TaskId → Bool
is_empty [] = true
is_empty (id ∷ ids) = false

-- A task without dependencies starts the count with its own cost.
abbrev pub started : WorkloadDag → TaskId → Task → Distances → Distances
started g u task s =
    if is_empty (dependencies_of u g)
    then record s { dist = assign u task.profile.compute_cost s.dist }
    else s

abbrev pub measure : WorkloadDag → TaskId → Task → Distances → Distances
measure g u task s = relax_edges g u (dependents u g) (started g u task s)

unfoldable pub distances : WorkloadDag → List TaskId → Distances
distances g topo =
    each_task g (measure g) topo (record { dist = zero_distances topo []; predecessor = [] })

-- max_dist, which starts at -1
abbrev pub exceeds : ℕ → Option ℕ → Bool
exceeds d none = true
exceeds d (some most) = ltb most d

unfoldable pub farthest : List (TaskId × ℕ) → Option ℕ → TaskId → TaskId
farthest [] most end_task = end_task
farthest ((id, d) ∷ dist) most end_task =
    if exceeds d most then farthest dist (some d) id else farthest dist most end_task

-- critical_set.insert
abbrev pub insert : TaskId → List TaskId → List TaskId
insert id ids = if elem id ids then ids else id ∷ ids

-- The walk back along the predecessors: the set, and the id at which the fuel was gone. The empty id
-- ends it.
unfoldable pub trace_back : ℕ → List (TaskId × TaskId) → TaskId → List TaskId → List TaskId × TaskId
trace_back zero predecessor curr critical_set = (critical_set, curr)
trace_back (suc fuel) predecessor curr critical_set =
    let rest =
      trace_back fuel predecessor (find_or "" curr predecessor) (insert curr critical_set) in
    ite (String_discrete curr "") (critical_set, curr) rest

unfoldable pub keep_local : NodeId → List TaskId → List TaskId → List SchedulingDecision
keep_local node critical_set [] = []
keep_local node critical_set (id ∷ ids) =
    if elem id critical_set
    then optimized id node ∷ keep_local node critical_set ids
    else keep_local node critical_set ids

module _ (it : Iteration) (g : WorkloadDag) where
  abbrev pub traced : List TaskId → List TaskId × TaskId
  traced topo =
      let s = distances g topo in
      trace_back (suc (length topo)) s.predecessor (farthest (it.visit s.dist) none "") []

  -- An empty order gives no decision, as the early return does.
  unfoldable pub critical_path_assignment : NodeId → List SchedulingDecision
  critical_path_assignment node =
      let topo = topological_order it g in keep_local node (traced topo).0 topo
