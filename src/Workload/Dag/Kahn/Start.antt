-- ===== src/Workload/Dag/Kahn/Start.antt =====
-- What topological_order starts from: the keys of in_degree, and the tasks with in-degree 0 in the
-- order in which the map is visited.
use edge_orchestrator_ai.Prelude.{
  ℕ, ◌+◌, ◌≡◌, ◌⊎◌, inl, inr, ◌↔◌, true, List, [], ◌∷◌, string_key, arith, some, elem, Distinct,
}
use edge_orchestrator_ai.Prelude.HashMap.{
  find, find-absent, find-elem, find-present, find_or-find, find_or, assign, keys, elem-keys-assign,
  Distinct-keys-assign,
}
use edge_orchestrator_ai.Core.Types.{TaskId}
use edge_orchestrator_ai.Workload.Dag.{Task, WorkloadDag}
use edge_orchestrator_ai.Workload.Dag.Kahn.{
  zero_degrees, count_neighbors, count_edges, in_degree, zero_in,
}
use edge_orchestrator_ai.Workload.Dag.Kahn.Pending.{Edge, pending_in}
use edge_orchestrator_ai.Workload.Dag.Kahn.Degrees.{in_degree-pending_in}
use edge_orchestrator_ai.Workload.Dag.Iteration.{Iteration, SameMap, visit-SameMap}
use native.Mathlib.Nat.{ℕ_set}

-- The keys of in_degree are distinct.
Distinct-zero_degrees :
    (tasks : List (TaskId × Task)) (deg : List (TaskId × ℕ))
    → Distinct (keys deg)
    → Distinct (keys (zero_degrees tasks deg))
unfolding zero_degrees
Distinct-zero_degrees [] deg h = h
Distinct-zero_degrees ((id, task) ∷ tasks) deg h =
    Distinct-zero_degrees tasks (assign id 0 deg) (Distinct-keys-assign id 0 deg h)

Distinct-count_neighbors :
    (ns : List TaskId) (deg : List (TaskId × ℕ))
    → Distinct (keys deg)
    → Distinct (keys (count_neighbors ns deg))
unfolding count_neighbors
Distinct-count_neighbors [] deg h = h
Distinct-count_neighbors (n ∷ ns) deg h =
    Distinct-count_neighbors ns _ (Distinct-keys-assign n (find_or 0 n deg + 1) deg h)

Distinct-count_edges :
    (adj : List (TaskId × List TaskId)) (deg : List (TaskId × ℕ))
    → Distinct (keys deg)
    → Distinct (keys (count_edges adj deg))
unfolding count_edges
Distinct-count_edges [] deg h = h
Distinct-count_edges ((u, ns) ∷ adj) deg h =
    Distinct-count_edges adj (count_neighbors ns deg) (Distinct-count_neighbors ns deg h)

pub Distinct-in_degree : (g : WorkloadDag) → Distinct (keys (in_degree g))
unfolding in_degree
Distinct-in_degree g =
    Distinct-count_edges g.adj_list (zero_degrees g.tasks []) (Distinct-zero_degrees g.tasks [] tt)

-- They are the tasks and the targets of edges.
elem-zero_degrees :
    (tasks : List (TaskId × Task)) (deg : List (TaskId × ℕ)) (v : TaskId)
    → (elem v (keys (zero_degrees tasks deg)) ≡ true)
      ↔ ((elem v (keys tasks) ≡ true) ⊎ (elem v (keys deg) ≡ true))
unfolding zero_degrees elem
elem-zero_degrees [] deg v = (inr, λ h. ground arith)
elem-zero_degrees ((id, task) ∷ tasks) deg v =
    ground (arith, elem-zero_degrees tasks (assign id 0 deg) v, elem-keys-assign id v 0 deg)

elem-count_neighbors :
    (ns : List TaskId) (deg : List (TaskId × ℕ)) (v : TaskId)
    → (elem v (keys (count_neighbors ns deg)) ≡ true)
      ↔ ((elem v ns ≡ true) ⊎ (elem v (keys deg) ≡ true))
unfolding count_neighbors elem
elem-count_neighbors [] deg v = (inr, λ h. ground arith)
elem-count_neighbors (n ∷ ns) deg v =
    let d = find_or 0 n deg + 1 in
    ground (arith, elem-count_neighbors ns (assign n d deg) v, elem-keys-assign n v d deg)

pub elem-count_edges_target :
    (adj : List (TaskId × List TaskId)) (deg : List (TaskId × ℕ)) (u v : TaskId)
    → (Edge adj u v ⊎ (elem v (keys deg) ≡ true))
    → elem v (keys (count_edges adj deg)) ≡ true
unfolding count_edges find_or elem
elem-count_edges_target [] deg u v h = ground arith
elem-count_edges_target ((w, ns) ∷ adj) deg u v h =
    ground (
      arith,
      elem-count_edges_target adj (count_neighbors ns deg) u v,
      elem-count_neighbors ns deg v,
    )

elem-count_edges_only :
    (adj : List (TaskId × List TaskId)) (deg : List (TaskId × ℕ)) (v : TaskId)
    → Distinct (keys adj)
    → elem v (keys (count_edges adj deg)) ≡ true
    → ((u : TaskId) × Edge adj u v × (elem u (keys adj) ≡ true)) ⊎ (elem v (keys deg) ≡ true)
unfolding count_edges find_or elem
elem-count_edges_only [] deg v h m = inr m
elem-count_edges_only ((w, ns) ∷ adj) deg v h m =
    elim (elem-count_edges_only adj (count_neighbors ns deg) v h.1 m) [
      | inl (u, edge, k) ↦ inl (u, ground arith, ground arith)
      | inr k ↦ elim ((elem-count_neighbors ns deg v).0 k) [
        | inl here ↦ inl (w, ground arith, ground arith)
        | inr old ↦ inr old
      ]
    ]

pub task-known :
    (g : WorkloadDag) (v : TaskId)
    → elem v (keys g.tasks) ≡ true
    → elem v (keys (in_degree g)) ≡ true
unfolding in_degree
task-known g v m =
    elem-count_edges_target g.adj_list (zero_degrees g.tasks []) v v
      (inr ((elem-zero_degrees g.tasks [] v).1 (inl m)))

pub target-known :
    (g : WorkloadDag) (u v : TaskId) → Edge g.adj_list u v → elem v (keys (in_degree g)) ≡ true
unfolding in_degree
target-known g u v e = elem-count_edges_target g.adj_list (zero_degrees g.tasks []) u v (inl e)

pub known-only :
    (g : WorkloadDag) (v : TaskId)
    → Distinct (keys g.adj_list)
    → elem v (keys (in_degree g)) ≡ true
    → ((u : TaskId) × Edge g.adj_list u v × (elem u (keys g.adj_list) ≡ true))
      ⊎ (elem v (keys g.tasks) ≡ true)
unfolding in_degree elem
known-only g v h m = elim (elem-count_edges_only g.adj_list (zero_degrees g.tasks []) v h m) [
  | inl e ↦ inl e
  | inr k ↦ inr (ground (arith, elem-zero_degrees g.tasks [] v))
]

-- The initial queue.
elem-zero_in :
    (deg : List (TaskId × ℕ)) (v : TaskId)
    → Distinct (keys deg)
    → (elem v (zero_in deg) ≡ true) ↔ (find v deg ≡ some 0)
unfolding zero_in elem find
elem-zero_in [] v h = (λ m. cc, λ m. cc)
elem-zero_in ((id, d) ∷ deg) v h = ground (arith, elem-zero_in deg v h.1, find-absent v deg)

Distinct-zero_in : (deg : List (TaskId × ℕ)) → Distinct (keys deg) → Distinct (zero_in deg)
unfolding zero_in elem
Distinct-zero_in [] h = tt
Distinct-zero_in ((id, d) ∷ deg) h =
    ground (arith, Distinct-zero_in deg h.1, elem-zero_in deg id h.1, find-absent id deg h.0)

module _ (it : Iteration) (g : WorkloadDag) where
  visited : SameMap (in_degree g) (it.visit (in_degree g))
  visited = visit-SameMap it (in_degree g) ℕ_set (Distinct-in_degree g)

  pub sources-Distinct : Distinct (zero_in (it.visit (in_degree g)))
  sources-Distinct = Distinct-zero_in (it.visit (in_degree g)) visited.distinct

  -- Whatever the order of the visit, the queue starts with the nodes that no edge enters.
  pub elem-sources :
      (v : TaskId)
      → (elem v (zero_in (it.visit (in_degree g))) ≡ true)
        ↔ ((elem v (keys (in_degree g)) ≡ true) × (pending_in g.adj_list [] v ≡ 0))
  elem-sources v = ground (
    arith,
    elem-zero_in (it.visit (in_degree g)) v visited.distinct,
    visited.same_values v,
    in_degree-pending_in g v,
    find-elem v (in_degree g) {v = 0},
    find_or-find 0 v (in_degree g),
    find-present v (in_degree g),
  )
