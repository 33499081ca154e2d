-- ===== src/Scheduler/Optimizer/Tests.antt =====
-- The optimizer policy on a small graph, with a tape for the random draws, and the theorems at it.
use mathlib.Core.List.{Memᴰ}
use edge_orchestrator_ai.Prelude.{
  ℕ, ◌≤◌, ◌≡◌, refl, Bool, List, [], ◌∷◌, length, leb, ◌&&◌, if◌then◌else◌, count, string_key,
  Distinct, arith,
}
use edge_orchestrator_ai.Prelude.Words.{add64, sub64}
use edge_orchestrator_ai.Core.Types.{TaskId}
use edge_orchestrator_ai.Workload.Dag.{get_task, dependents, dependencies_of}
use edge_orchestrator_ai.Workload.Dag.Kahn.{topological_order}
use edge_orchestrator_ai.Workload.Dag.Tests.{
  in_order, diamond, program, diamond-IsWellFormed, diamond-IsClosed,
}
use edge_orchestrator_ai.Scheduler.Tests.{whole, view, here}
use edge_orchestrator_ai.Scheduler.Choice.{choose}
use edge_orchestrator_ai.Scheduler.Rounds.{each_task}
use edge_orchestrator_ai.Scheduler.Plan.{SchedulingDecision, SchedulingPlan}
use edge_orchestrator_ai.Scheduler.Optimizer.{
  OptimizerPolicyConfig, Sorting, Random, names, decided, optimized, peer_budgets, memory_remaining,
  node_budgets,
}
use edge_orchestrator_ai.Scheduler.Optimizer.CriticalPath.{
  critical_path_assignment, keep_local, trace_back, farthest, distances, relax_edges,
  zero_distances, traced,
}
use edge_orchestrator_ai.Scheduler.Optimizer.BinPack.{
  bin_pack_remaining, account, charge_named, unassigned, best_fit, pack,
}
use edge_orchestrator_ai.Scheduler.Optimizer.Makespan.{estimate_makespan, ready_at}
use edge_orchestrator_ai.Scheduler.Optimizer.LocalSearch.{
  local_search_improve, improve, iterate_once, place, index_nodes,
}
use edge_orchestrator_ai.Scheduler.Optimizer.Policy.{schedule, packed}
use edge_orchestrator_ai.Scheduler.Optimizer.Decides.{schedule-decides_once}
use edge_orchestrator_ai.Scheduler.Optimizer.Placements.{Allowed, optimizer-Allowed}
use edge_orchestrator_ai.Scheduler.Optimizer.Improves.{estimate_of, schedule-improves}
use edge_orchestrator_ai.Scheduler.Optimizer.Trace.{traced-ends}

-- Insertion.
abbrev insert_by : (TaskId → TaskId → Bool) → TaskId → List TaskId → List TaskId
insert_by less x [] = x ∷ []
insert_by less x (y ∷ ys) =
    let rest = insert_by less x ys in if less y x then y ∷ rest else x ∷ y ∷ ys

abbrev insertion_sort : (TaskId → TaskId → Bool) → List TaskId → List TaskId
insertion_sort less [] = []
insertion_sort less (x ∷ xs) = insert_by less x (insertion_sort less xs)

count-insert_by :
    (less : TaskId → TaskId → Bool) (x : TaskId) (ys : List TaskId) (id : TaskId)
    → count id (insert_by less x ys) ≡ count id (x ∷ ys)
unfolding count
count-insert_by less x [] id = refl
count-insert_by less x (y ∷ ys) id = ground (arith, count-insert_by less x ys id)

count-insertion_sort :
    (less : TaskId → TaskId → Bool) (ids : List TaskId) (id : TaskId)
    → count id (insertion_sort less ids) ≡ count id ids
unfolding count
count-insertion_sort less [] id = refl
count-insertion_sort less (x ∷ xs) id =
    ground
      (arith, count-insert_by less x (insertion_sort less xs) id, count-insertion_sort less xs id)

abbrev sorting : Sorting
sorting = record { sort = insertion_sort; count-sort = count-insertion_sort }

-- A tape: each draw is the next number, or the lower bound if that is out of range.
abbrev draw : ℕ → ℕ → List ℕ → ℕ × List ℕ
draw a b [] = (a, [])
draw a b (n ∷ tape) = (if leb a n && leb n b then n else a, tape)

draw_bounds : (a b : ℕ) (tape : List ℕ) → a ≤ b → (a ≤ (draw a b tape).0) × ((draw a b tape).0 ≤ b)
draw_bounds a b [] h = (omega arith, h)
draw_bounds a b (n ∷ tape) h = (ground arith, ground arith)

abbrev random : Random
random = record {
  Rng = List ℕ;
  seeded = λ seed. 1 ∷ 2 ∷ 3 ∷ 0 ∷ 0 ∷ 1 ∷ [];
  uniform = draw;
  uniform_bounds = draw_bounds;
}

abbrev config : OptimizerPolicyConfig ℕ
config = record { max_iterations = 3; communication_weight = 0 }

abbrev plan : SchedulingPlan
plan = schedule whole config sorting random in_order diamond here view 7

abbrev before : List SchedulingDecision
before = (packed whole config sorting random in_order diamond here view 7).decisions

runs : Unit {0}
unfolding program diamond schedule critical_path_assignment keep_local trace_back farthest distances
    relax_edges zero_distances bin_pack_remaining account charge_named unassigned best_fit pack
    estimate_makespan ready_at local_search_improve improve iterate_once place index_nodes each_task
    choose add64 sub64 memory_remaining peer_budgets get_task dependents dependencies_of
runs = tt

before_runs :
    before ≡ optimized "a" "a" ∷ optimized "b" "a" ∷ optimized "d" "a" ∷ optimized "c" "b" ∷ []
unfolding runs
before_runs = refl

plan_runs : (plan.estimated_makespan ≡ 31) × (decided plan.decisions ≡ "a" ∷ "b" ∷ "d" ∷ "c" ∷ [])
unfolding runs
plan_runs = (refl, refl)

schedule-decides_once_example :
    count "c" (decided plan.decisions) ≡ count "c" (topological_order in_order diamond)
schedule-decides_once_example =
    schedule-decides_once sorting in_order diamond diamond-IsWellFormed diamond-IsClosed whole
      config random here view 7 "c"

traced-ends_example : (traced in_order diamond (topological_order in_order diamond)).1 ≡ ""
traced-ends_example = traced-ends in_order diamond diamond-IsWellFormed

names-Distinct : Distinct (names (node_budgets here view))
unfolding runs
names-Distinct = (refl, (refl, (refl, tt)))

before-long : 2 ≤ length before
before-long = rw before_runs (omega arith)

two_nodes : 2 ≤ length (node_budgets here view)
unfolding peer_budgets
two_nodes = omega arith

schedule-improves_example :
    (plan.estimated_makespan
      ≡ estimate_of whole config sorting random in_order diamond here view plan.decisions)
    × (plan.estimated_makespan
        ≤ estimate_of whole config sorting random in_order diamond here view before)
schedule-improves_example =
    schedule-improves whole config sorting random in_order diamond here view 7 diamond-IsWellFormed
      diamond-IsClosed names-Distinct before-long two_nodes

plan_places :
    plan.decisions
    ≡ optimized "a" "a" ∷ optimized "b" "a" ∷ optimized "d" "a" ∷ optimized "c" "b" ∷ []
unfolding runs
plan_places = refl

optimizer-Allowed_example :
    Allowed whole config sorting random in_order diamond here view 7 (optimized "c" "b")
optimizer-Allowed_example =
    optimizer-Allowed whole config sorting random in_order diamond here view 7 (optimized "c" "b")
      (rw plan_places (Memᴰ.tail (Memᴰ.tail (Memᴰ.tail (Memᴰ.head refl)))))
