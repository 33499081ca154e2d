-- ===== src/Workload/Dag/Kahn.antt =====
-- WorkloadDAG::topological_order of src/workload/dag.cpp: Kahn's algorithm.
pub mod Degrees
pub mod Pending
pub mod Loop
pub mod Start
pub mod Order
use edge_orchestrator_ai.Prelude.{
  ℕ, zero, suc, ◌+◌, ◌-◌, List, [], ◌∷◌, ◌++◌, length, if◌then◌else◌, ◌==◌, string_key,
}
use edge_orchestrator_ai.Prelude.Words.{pred64}
use edge_orchestrator_ai.Prelude.HashMap.{find_or, assign}
use edge_orchestrator_ai.Core.Types.{TaskId}
use edge_orchestrator_ai.Workload.Dag.{Task, WorkloadDag}
use edge_orchestrator_ai.Workload.Dag.Iteration.{Iteration}

-- in_degree[id] = 0 for each task
pub zero_degrees : List (TaskId × Task) → List (TaskId × ℕ) → List (TaskId × ℕ)
zero_degrees [] deg = deg
zero_degrees ((id, task) ∷ tasks) deg = zero_degrees tasks (assign id 0 deg)

-- ++in_degree[to] for each neighbour; a key that is not there is inserted with 0
pub count_neighbors : List TaskId → List (TaskId × ℕ) → List (TaskId × ℕ)
count_neighbors [] deg = deg
count_neighbors (to ∷ neighbors) deg =
    count_neighbors neighbors (assign to (find_or 0 to deg + 1) deg)

pub count_edges : List (TaskId × List TaskId) → List (TaskId × ℕ) → List (TaskId × ℕ)
count_edges [] deg = deg
count_edges ((from, neighbors) ∷ adj) deg = count_edges adj (count_neighbors neighbors deg)

pub in_degree : WorkloadDag → List (TaskId × ℕ)
in_degree g = count_edges g.adj_list (zero_degrees g.tasks [])

pub zero_in : List (TaskId × ℕ) → List TaskId
zero_in [] = []
zero_in ((id, deg) ∷ rest) = if deg == 0 then id ∷ zero_in rest else zero_in rest

-- The loop over the neighbours of a task that leaves the queue: the degrees and the queue after it.
pub relax : List TaskId → List (TaskId × ℕ) → List TaskId → List (TaskId × ℕ) × List TaskId
relax [] deg queue = (deg, queue)
relax (neighbor ∷ neighbors) deg queue =
    let d = pred64 (find_or 0 neighbor deg) in
    relax neighbors (assign neighbor d deg) (if d == 0 then queue ++ neighbor ∷ [] else queue)

-- The while loop: the order, and what the queue holds when the fuel is gone.
pub drain :
    List (TaskId × List TaskId)
    → ℕ
    → List (TaskId × ℕ)
    → List TaskId
    → List TaskId
    → List TaskId × List TaskId
drain adj fuel deg [] order = (order, [])
drain adj zero deg (current ∷ queue) order = (order, current ∷ queue)
drain adj (suc fuel) deg (current ∷ queue) order =
    let (deg', queue') = relax (find_or [] current adj) deg queue in
    drain adj fuel deg' queue' (order ++ current ∷ [])

module _ (it : Iteration) where
  -- One round for each entry of in_degree is enough: `drained` of Kahn/Loop.
  pub kahn : WorkloadDag → List TaskId × List TaskId
  kahn g = let deg = in_degree g in drain g.adj_list (length deg) deg (zero_in (it.visit deg)) []

  unfoldable pub topological_order : WorkloadDag → List TaskId
  unfolding kahn drain relax zero_in in_degree count_edges count_neighbors zero_degrees
  topological_order g = (kahn g).0
