-- ===== src/Scheduler/Optimizer/Trace.antt =====
-- The walk back along the critical path comes to its end.
use edge_orchestrator_ai.Prelude.{
  ℕ, zero, suc, ◌+◌, ◌<◌, ◌≡◌, refl, sym, ap, ◌∙◌, inl, inr, true, List, [], ◌∷◌, Option, none,
  some, length, ltb, string_key, elem, elem_self, arith, String_discrete, if_pos, if_neg,
  Bool-cases, some_eq,
}
use edge_orchestrator_ai.Prelude.HashMap.{find, find_or, find_or-find, find-assign}
use edge_orchestrator_ai.Core.Types.{TaskId}
use edge_orchestrator_ai.Workload.Dag.{Task, WorkloadDag, get_task, dependents, dependencies_of}
use edge_orchestrator_ai.Workload.Dag.Graph.{IsWellFormed}
use edge_orchestrator_ai.Workload.Dag.Iteration.{Iteration}
use edge_orchestrator_ai.Workload.Dag.Kahn.{topological_order}
use edge_orchestrator_ai.Workload.Dag.Kahn.Pending.{Edge, IsTopological}
use edge_orchestrator_ai.Workload.Dag.Kahn.Order.{
  index_of, index_of-absent, index_of-elem, index_of_le, IsTopological-index_of,
  topological_order_sound, not-elem-nil,
}
use edge_orchestrator_ai.Scheduler.Rounds.{each_task, round}
use edge_orchestrator_ai.Scheduler.Optimizer.CriticalPath.{
  Distances, relax_edge, relax_edges, started, measure, distances, insert, trace_back, traced,
  is_empty,
}

module _ (g : WorkloadDag) (order : List TaskId) where
  -- Each predecessor is a task of the order with an edge to the task.
  abbrev pub Backed : Distances → Type 0
  Backed s =
      (u v : TaskId) → find v s.predecessor ≡ some u → (elem u order ≡ true) × Edge g.adj_list u v

  relax_edge-Backed :
      (u v : TaskId) (o : Option Task) (s : Distances)
      → elem u order ≡ true
      → Edge g.adj_list u v
      → Backed s
      → Backed (relax_edge u v o s)
  relax_edge-Backed u v none s m e h = h
  relax_edge-Backed u v (some task) s m e h =
      elim (Bool-cases
        (ltb (find_or 0 v s.dist) (find_or 0 u s.dist + task.profile.compute_cost))) [
          | inr same ↦ rw same h
          | inl longer ↦ rw longer (λ x y at. elim (String_discrete y v) [
            | yes p ↦
                let value = some_eq (
                  sym (if_pos (String_discrete y v) p _ _)
                  ∙ sym (find-assign v y u s.predecessor)
                  ∙ at) in
                rw (sym value, p) (m, e)
            | no n ↦ h x y (
                sym (if_neg (String_discrete y v) n _ _)
                ∙ sym (find-assign v y u s.predecessor)
                ∙ at)
          ])
        ]

  relax_edges-Backed :
      (u : TaskId) (vs : List TaskId) (s : Distances)
      → elem u order ≡ true
      → ((v : TaskId) → elem v vs ≡ true → Edge g.adj_list u v)
      → Backed s
      → Backed (relax_edges g u vs s)
  unfolding relax_edges elem
  relax_edges-Backed u [] s m edges h = h
  relax_edges-Backed u (v ∷ vs) s m edges h =
      relax_edges-Backed u vs _ m (λ w there. edges w (ground arith))
        (relax_edge-Backed u v (get_task v g) s m (edges v (elem_self v vs)) h)

  measure-Backed :
      (u : TaskId) (task : Task) (s : Distances)
      → elem u order ≡ true
      → Backed s
      → Backed (measure g u task s)
  unfolding dependents
  measure-Backed u task s m h =
      relax_edges-Backed u (dependents u g) (started g u task s) m (λ v there. there) begun
    where
      begun : Backed (started g u task s)
      begun = elim (Bool-cases (is_empty (dependencies_of u g))) [
        | inl first ↦ rw first h
        | inr later ↦ rw later h
      ]

  each_task-Backed :
      (ids : List TaskId) (s : Distances)
      → ((id : TaskId) → elem id ids ≡ true → elem id order ≡ true)
      → Backed s
      → Backed (each_task g (measure g) ids s)
  unfolding each_task elem
  each_task-Backed [] s known h = h
  each_task-Backed (id ∷ ids) s known h =
      each_task-Backed ids _ (λ x m. known x (ground arith)) (visited (get_task id g))
    where
      visited : (o : Option Task) → Backed (round g (measure g) id s o)
      visited none = h
      visited (some task) = measure-Backed id task s (known id (elem_self id ids)) h

  distances-Backed : Backed (distances g order)
  unfolding distances find
  distances-Backed = each_task-Backed order _ (λ id m. m) (λ u v at. cc)

  -- The empty id ends the walk.
  trace_back-empty :
      (fuel : ℕ) (predecessor : List (TaskId × TaskId)) (set : List TaskId)
      → (trace_back fuel predecessor "" set).1 ≡ ""
  unfolding trace_back
  trace_back-empty zero predecessor set = refl
  trace_back-empty (suc fuel) predecessor set =
      ap (λ (r : List TaskId × TaskId). r.1) (if_pos (String_discrete "" "") refl _ _)

  module _ (topological : IsTopological g.adj_list [] order) where
    -- A predecessor stands before its task in the order.
    earlier :
        (u v : TaskId)
        → elem u order ≡ true
        → Edge g.adj_list u v
        → index_of u order < index_of v order
    earlier u v m e = elim (Bool-cases (elem v order)) [
      | inl there ↦ elim (IsTopological-index_of g.adj_list [] order u v topological e there) [
        | inl nowhere ↦ absurd (not-elem-nil u nowhere)
        | inr before ↦ before
      ]
      | inr absent ↦ omega (arith, index_of-elem u order m, index_of-absent v order absent)
    ]

    trace_back-ends :
        (s : Distances)
        → Backed s
        → (fuel : ℕ) (curr : TaskId) (set : List TaskId) → index_of curr order < fuel
        → (trace_back fuel s.predecessor curr set).1 ≡ ""
    unfolding trace_back
    trace_back-ends s backed zero curr set short = absurd (omega arith)
    trace_back-ends s backed (suc fuel) curr set short = elim (String_discrete curr "") [
      | yes p ↦ ap (λ (r : List TaskId × TaskId). r.1) (if_pos (String_discrete curr "") p _ _) ∙ p
      | no n ↦
          ap (λ (r : List TaskId × TaskId). r.1) (if_neg (String_discrete curr "") n _ _)
          ∙ (next (λ u less. trace_back-ends s backed fuel u (insert curr set) less)
              (find curr s.predecessor) refl)
    ]
      where
        next :
            ((u : TaskId)
              → index_of u order < fuel
              → (trace_back fuel s.predecessor u (insert curr set)).1 ≡ "")
            → (o : Option TaskId) → find curr s.predecessor ≡ o
            → (trace_back fuel s.predecessor (find_or "" curr s.predecessor) (insert curr set)).1
              ≡ ""
        next walk none e =
            rw (find_or-find "" curr s.predecessor, e)
              (trace_back-empty fuel s.predecessor (insert curr set))
        next walk (some u) e =
            let (m, edge) = backed u curr e in
            rw (find_or-find "" curr s.predecessor, e)
              (walk u (omega (arith, earlier u curr m edge)))

-- For a well-formed graph, cyclic or not, the walk from the farthest task back along the
-- predecessors reaches the empty id, which ends it, within one step more than the topological
-- order is long.
pub traced-ends :
    (it : Iteration) (g : WorkloadDag)
    → IsWellFormed g
    → (traced it g (topological_order it g)).1 ≡ ""
traced-ends it g wf =
    let order = topological_order it g in
    trace_back-ends g order (topological_order_sound it g wf).2 (distances g order)
      (distances-Backed g order) (suc (length order)) _ [] (omega (arith, index_of_le _ order))
