-- ===== src/Workload/Dag/Graph.antt =====
-- What the graph of a WorkloadDAG is, apart from how it is stored.
use edge_orchestrator_ai.Prelude.{ℕ, ◌<◌, ◌≡◌, true, [], elem, count, Distinct, string_key, some}
use edge_orchestrator_ai.Prelude.HashMap.{find, find_or, keys}
use edge_orchestrator_ai.Core.Types.{TaskId}
use edge_orchestrator_ai.Workload.Dag.{WorkloadDag, Task}
use edge_orchestrator_ai.Workload.Dag.Kahn.Pending.{Edge}

-- The three maps have distinct keys and hold each task under its id; each edge is in both adjacency
-- lists, as often in one as in the other.
pub record IsWellFormed (g : WorkloadDag) : Type 0 where
  pub tasks_distinct : Distinct (keys g.tasks)
  pub adj_distinct : Distinct (keys g.adj_list)
  pub reverse_distinct : Distinct (keys g.reverse_adj)
  pub named : (id : TaskId) (task : Task) → find id g.tasks ≡ some task → task.id ≡ id
  pub mirrored :
      (u v : TaskId) → count v (find_or [] u g.adj_list) ≡ count u (find_or [] v g.reverse_adj)

-- Each edge joins two tasks.
pub record IsClosed (g : WorkloadDag) : Type 0 where
  pub source : (u v : TaskId) → Edge g.adj_list u v → elem u (keys g.tasks) ≡ true
  pub target : (u v : TaskId) → Edge g.adj_list u v → elem v (keys g.tasks) ≡ true

-- The edges go upwards by some rank, so that no walk along them comes back.
abbrev pub IsAcyclic : WorkloadDag → Type 0
IsAcyclic g = (rank : TaskId → ℕ) × ((u v : TaskId) → Edge g.adj_list u v → rank u < rank v)
