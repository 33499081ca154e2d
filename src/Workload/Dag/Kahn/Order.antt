-- ===== src/Workload/Dag/Kahn/Order.antt =====
-- The order that topological_order returns.
use edge_orchestrator_ai.Prelude.{
  ℕ, zero, suc, ◌<◌, ◌≤◌, ◌≡◌, refl, false, sym, subst, append-nil, String_discrete, ite,
  Distinct-fills, ◌↔◌, ◌⊎◌, inl, inr, true, List, [], ◌∷◌, string_key, arith, elem, Distinct,
  length, Distinct-length, dec_lt,
}
use edge_orchestrator_ai.Prelude.HashMap.{keys, length-keys}
use edge_orchestrator_ai.Core.Types.{TaskId}
use edge_orchestrator_ai.Workload.Dag.{WorkloadDag, task_count}
use edge_orchestrator_ai.Workload.Dag.Iteration.{Iteration}
use edge_orchestrator_ai.Workload.Dag.Graph.{IsWellFormed, IsClosed, IsAcyclic}
use edge_orchestrator_ai.Workload.Dag.Kahn.{kahn, in_degree, topological_order, zero_in}
use edge_orchestrator_ai.Workload.Dag.Kahn.Pending.{Edge, IsTopological, pending_in, pending_in_pos}
use edge_orchestrator_ai.Workload.Dag.Kahn.Degrees.{in_degree-pending_in}
use edge_orchestrator_ai.Workload.Dag.Kahn.Loop.{Inv, drain-Inv}
use edge_orchestrator_ai.Workload.Dag.Kahn.Start.{
  target-known, task-known, known-only, elem-sources, sources-Distinct,
}

-- The place of a task in a list; for a task that is not there, the length.
pub index_of : TaskId → List TaskId → ℕ
index_of x [] = 0
index_of x (y ∷ ys) = ite (String_discrete x y) 0 (suc (index_of x ys))

pub index_of-absent :
    (x : TaskId) (xs : List TaskId) → elem x xs ≡ false → index_of x xs ≡ length xs
unfolding index_of elem
index_of-absent x [] h = refl
index_of-absent x (y ∷ xs) h = ground (arith, index_of-absent x xs)

pub index_of-elem : (x : TaskId) (xs : List TaskId) → elem x xs ≡ true → index_of x xs < length xs
unfolding index_of elem
index_of-elem x [] h = cc
index_of-elem x (y ∷ xs) h = ground (arith, index_of-elem x xs)

pub index_of_le : (x : TaskId) (xs : List TaskId) → index_of x xs ≤ length xs
unfolding index_of
index_of_le x [] = omega arith
index_of_le x (y ∷ xs) = ground (arith, index_of_le x xs)

pub not-elem-nil : (u : TaskId) → ¬ (elem u [] ≡ true)
unfolding elem
not-elem-nil u h = cc

-- In a topological order the source of an edge stands before its target.
pub IsTopological-index_of :
    (adj : List (TaskId × List TaskId)) (seen order : List TaskId) (u v : TaskId)
    → IsTopological adj seen order
    → Edge adj u v
    → elem v order ≡ true
    → (elem u seen ≡ true) ⊎ (index_of u order < index_of v order)
unfolding elem index_of
IsTopological-index_of adj seen [] u v h e m = cc
IsTopological-index_of adj seen (w ∷ rest) u v h e m =
    ground (arith, h.0 u, IsTopological-index_of adj (w ∷ seen) rest u v h.1 e)

module _ (it : Iteration) (g : WorkloadDag) (wf : IsWellFormed g) where
  abbrev nodes : List TaskId
  nodes = keys (in_degree g)

  abbrev LoopInv : List (TaskId × ℕ) → List TaskId → List TaskId → Type 0
  LoopInv = Inv g.adj_list nodes wf.adj_distinct (target-known g)

  start-Inv : LoopInv (in_degree g) (zero_in (it.visit (in_degree g))) []
  start-Inv = record {
    degrees = in_degree-pending_in g;
    distinct = sources-Distinct it g;
    free = λ v m. ((elem-sources it g v).0 m).1;
    known = λ v m. ((elem-sources it g v).0 m).0;
    full = λ v k z. (elem-sources it g v).1 (k, z);
    topological = tt;
  }

  kahn_ends : ((kahn it g).1 ≡ []) × ((deg : List (TaskId × ℕ)) × LoopInv deg [] (kahn it g).0)
  unfolding kahn
  kahn_ends =
      drain-Inv g.adj_list nodes wf.adj_distinct (target-known g) (length (in_degree g)) _ _ []
        start-Inv (omega (arith, length-keys (in_degree g)))

  -- In a well-formed graph, and whatever the order in which the maps are walked,
  -- topological_order empties its queue within the fuel; the order it returns holds no task
  -- twice, and the source of each edge stands before its target in it.
  pub topological_order_sound :
      ((kahn it g).1 ≡ [])
      × Distinct (topological_order it g)
      × IsTopological g.adj_list [] (topological_order it g)
  unfolding topological_order
  topological_order_sound =
      let (empty, ended) = kahn_ends in
      let (_, inv) = ended in (empty, subst Distinct (append-nil _) inv.distinct, inv.topological)

  -- It holds exactly the nodes all of whose edges come from tasks in it.
  elem-order :
      (v : TaskId)
      → (elem v (topological_order it g) ≡ true)
        ↔ ((elem v nodes ≡ true) × (pending_in g.adj_list (topological_order it g) v ≡ 0))
  unfolding topological_order
  elem-order v =
      let (_, inv) = kahn_ends.1 in
      let end = append-nil (kahn it g).0 in
      (
        λ m. let m' = subst (λ l. elem v l ≡ true) (sym end) m in (inv.known v m', inv.free v m'),
        λ h. subst (λ l. elem v l ≡ true) end (inv.full v h.0 h.1),
      )

  module _ (closed : IsClosed g) where
    node-task : (v : TaskId) → elem v nodes ≡ true → elem v (keys g.tasks) ≡ true
    node-task v m = elim (known-only g v wf.adj_distinct m) [
      | inl (u, e, _) ↦ closed.target u v e
      | inr t ↦ t
    ]

    pub order-tasks :
        (v : TaskId) → elem v (topological_order it g) ≡ true → elem v (keys g.tasks) ≡ true
    order-tasks v m = node-task v ((elem-order v).0 m).0

    ranked :
        (acyclic : IsAcyclic g) (n : ℕ) (v : TaskId)
        → elem v (keys g.tasks) ≡ true
        → acyclic.0 v < n
        → elem v (topological_order it g) ≡ true
    ranked acyclic zero v m below = absurd (omega arith)
    ranked acyclic (suc n) v m below = elim (dec_lt 0 (pending_in g.adj_list order v)) [
      | yes p ↦
          let (u, e, _, missing) = pending_in_pos g.adj_list order v wf.adj_distinct p in
          let there = ranked acyclic n u (closed.source u v e) (omega (arith, acyclic.1 u v e)) in
          cc
      | no none_left ↦ (elem-order v).1 (task-known g v m, omega arith)
    ]
      where
        order : List TaskId
        order = topological_order it g

    -- In a well-formed graph whose edges join tasks and go upwards in some ranking,
    -- topological_order holds exactly the tasks of the graph.
    pub acyclic-elem_order :
        IsAcyclic g
        → (v : TaskId) → (elem v (topological_order it g) ≡ true) ↔ (elem v (keys g.tasks) ≡ true)
    acyclic-elem_order acyclic v =
        (order-tasks v, λ m. ranked acyclic (suc (acyclic.0 v)) v m (omega arith))

    -- The order is as long as the number of tasks exactly when the graph has no cycle.
    pub IsAcyclic-iff_length : IsAcyclic g ↔ (length (topological_order it g) ≡ task_count g)
    unfolding task_count
    IsAcyclic-iff_length = (full_length, rank)
      where
        order : List TaskId
        order = topological_order it g

        count_keys : length (keys g.tasks) ≡ length g.tasks
        count_keys = length-keys g.tasks

        full_length : IsAcyclic g → length order ≡ length g.tasks
        full_length acyclic = omega (
          arith,
          count_keys,
          Distinct-length order (keys g.tasks) topological_order_sound.1 order-tasks,
          Distinct-length (keys g.tasks) order wf.tasks_distinct
              (λ v. (acyclic-elem_order acyclic v).1),
        )

        rank : length order ≡ length g.tasks → IsAcyclic g
        rank same = (
          λ v. index_of v order,
          λ u v e.
              let there =
                Distinct-fills order (keys g.tasks) topological_order_sound.1 order-tasks
                  (omega (arith, count_keys)) v (closed.target u v e) in
              elim (IsTopological-index_of g.adj_list [] order u v topological_order_sound.2 e
                there) [ inl nowhere ↦ absurd (not-elem-nil u nowhere) | inr before ↦ before ],
        )
