-- ===== src/Scheduler/Optimizer/LocalSearch.antt =====
-- local_search_improve of src/scheduler/optimizer_policy.cpp: moves of random tasks to random nodes,
-- taken back unless the estimate gets shorter.
use edge_orchestrator_ai.Prelude.{
  ℕ, zero, suc, ◌+◌, ◌-◌, ◌==◌, List, [], ◌∷◌, Option, none, some, ltb, length, get_elem?,
  if◌then◌else◌, string_key, remove_one,
}
use edge_orchestrator_ai.Prelude.Words.{sub64}
use edge_orchestrator_ai.Prelude.HashMap.{find, find_or, assign, emplace}
use edge_orchestrator_ai.Core.Floats.{Floats}
use edge_orchestrator_ai.Core.Types.{NodeId, TaskId, Duration, ResourceSnapshot}
use edge_orchestrator_ai.Workload.Dag.{Task, WorkloadDag, get_task}
use edge_orchestrator_ai.Workload.Dag.Iteration.{Iteration}
use edge_orchestrator_ai.Scheduler.Plan.{ClusterView, SchedulingDecision, SchedulingPlan}
use edge_orchestrator_ai.Scheduler.Optimizer.{
  OptimizerPolicyConfig, Random, NodeBudget, memory_remaining, node_budgets, charge, alter, names,
}
use edge_orchestrator_ai.Scheduler.Optimizer.Makespan.{estimate_makespan}

-- node_index: the last node of a name
unfoldable pub index_nodes : List NodeId → ℕ → List (NodeId × ℕ) → List (NodeId × ℕ)
index_nodes [] i node_index = node_index
index_nodes (id ∷ ids) i node_index = index_nodes ids (i + 1) (assign id i node_index)

pub record Placement : Type 0 where
  pub nodes : List NodeBudget
  pub assignment : List (TaskId × ℕ)

abbrev pub place_at : SchedulingDecision → Option Task → Option ℕ → Placement → Placement
place_at d none at s = s
place_at d (some task) none s = s
place_at d (some task) (some idx) s = record {
  nodes = alter idx (charge task d.task_id) s.nodes;
  assignment = assign d.task_id idx s.assignment;
}

unfoldable pub place :
    WorkloadDag → List (NodeId × ℕ) → List SchedulingDecision → Placement → Placement
place g node_index [] s = s
place g node_index (d ∷ ds) s =
    place g node_index ds (place_at d (get_task d.task_id g) (find d.assigned_node node_index) s)

-- The plan's decisions, the nodes, the map of tasks to indices, and the makespan so far.
pub record Search : Type 0 where
  pub decisions : List SchedulingDecision
  pub nodes : List NodeBudget
  pub assignment : List (TaskId × ℕ)
  pub current_makespan : Duration

-- The writes that take a task from a node.
abbrev pub release : Task → TaskId → NodeBudget → NodeBudget
release task task_id node = record node {
  assigned_compute = node.assigned_compute - task.profile.compute_cost;
  memory_used = sub64 node.memory_used task.profile.memory_bytes;
  assigned_tasks = remove_one task_id node.assigned_tasks;
}

-- assigned_tasks.pop_back()
abbrev pub pop_back {ℓ} : {A : Type ℓ} → List A → List A
pop_back [] = []
pop_back (x ∷ []) = []
pop_back (x ∷ y ∷ xs) = x ∷ pop_back (y ∷ xs)

abbrev pub discharge : Task → NodeBudget → NodeBudget
discharge task node = record node {
  assigned_compute = node.assigned_compute - task.profile.compute_cost;
  memory_used = sub64 node.memory_used task.profile.memory_bytes;
  assigned_tasks = pop_back node.assigned_tasks;
}

module _ (f : Floats) (config : OptimizerPolicyConfig f.Float) (random : Random) (it : Iteration)
    (g : WorkloadDag) where
  open random use {Rng, seeded, uniform}

  abbrev pub estimate : List (TaskId × ℕ) → ℕ → Duration
  estimate assignment node_count =
      estimate_makespan f g assignment config.communication_weight it node_count

  -- Accept, or take back.
  abbrev pub settle :
      ℕ → SchedulingDecision → Task → ℕ → ℕ → NodeBudget → Duration → Search → Search
  settle task_idx d task from to target new_makespan s =
      if ltb new_makespan s.current_makespan
      then record s {
        current_makespan = new_makespan;
        decisions = alter task_idx (λ e. record e { assigned_node = target.id }) s.decisions;
      }
      else record s {
        nodes = alter from (charge task d.task_id) (alter to (discharge task) s.nodes);
        assignment = assign d.task_id from s.assignment;
      }

  abbrev pub moved : SchedulingDecision → Task → ℕ → ℕ → Search → Search
  moved d task from to s = record s {
    nodes = alter to (charge task d.task_id) (alter from (release task d.task_id) s.nodes);
    assignment = assign d.task_id to s.assignment;
  }

  abbrev pub try_move : ℕ → SchedulingDecision → Task → ℕ → ℕ → Option NodeBudget → Search → Search
  try_move task_idx d task from to none s = s
  try_move task_idx d task from to (some target) s =
      if ltb (memory_remaining target) task.profile.memory_bytes
      then s
      else let s' = moved d task from to s in
        settle task_idx d task from to target (estimate s'.assignment (length s'.nodes)) s'

  -- assignment[task_id] inserts a zero where there is no entry.
  abbrev pub looked_up : SchedulingDecision → Search → Search
  looked_up d s = record s { assignment = emplace d.task_id 0 s.assignment }

  abbrev pub attempt_move : ℕ → SchedulingDecision → Option Task → Search → Rng → Search × Rng
  attempt_move task_idx d none s rng = (s, rng)
  attempt_move task_idx d (some task) s rng =
      let from = find_or 0 d.task_id s.assignment in
      let (to, rng') = uniform 0 (length s.nodes - 1) rng in
      let s' = looked_up d s in
      (if to == from then s' else try_move task_idx d task from to (get_elem? s'.nodes to) s', rng')

  abbrev pub pick : ℕ → Option SchedulingDecision → Search → Rng → Search × Rng
  pick task_idx none s rng = (s, rng)
  pick task_idx (some d) s rng = attempt_move task_idx d (get_task d.task_id g) s rng

  -- The body of the loop. A draw is in range, so that there is a decision and a node.
  unfoldable pub iterate_once : Search → Rng → Search × Rng
  iterate_once s rng =
      let (task_idx, rng') = uniform 0 (length s.decisions - 1) rng in
      pick task_idx (get_elem? s.decisions task_idx) s rng'

  unfoldable pub improve : ℕ → Search → Rng → Search
  improve zero s rng = s
  improve (suc iterations) s rng = let (s', rng') = iterate_once s rng in improve iterations s' rng'

  abbrev pub search_from : List SchedulingDecision → Placement → Search
  search_from decisions p = record {
    decisions = decisions;
    nodes = p.nodes;
    assignment = p.assignment;
    current_makespan = estimate p.assignment (length p.nodes);
  }

  abbrev pub placed : List NodeBudget → List SchedulingDecision → Placement
  placed nodes decisions =
      place g (index_nodes (names nodes) 0 []) decisions (record { nodes = nodes; assignment = [] })

  abbrev pub searched : List NodeBudget → List SchedulingDecision → Search
  searched nodes decisions =
      improve config.max_iterations (search_from decisions (placed nodes decisions)) (seeded 42)

  unfoldable pub local_search_improve :
      {F : Type 0} → ResourceSnapshot F → ClusterView F → SchedulingPlan → SchedulingPlan
  local_search_improve local cluster plan =
      let nodes = node_budgets local cluster in
      let s = searched nodes plan.decisions in
      if ltb (length plan.decisions) 2
      then plan
      else if ltb (length nodes) 2
      then plan
      else record plan { decisions = s.decisions; estimated_makespan = s.current_makespan }
