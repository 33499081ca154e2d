-- ===== src/Workload/Dag/Agreement.antt =====
-- The two searches of dag.cpp agree: Kahn's order is complete exactly when the depth-first search
-- finds no cycle.
use edge_orchestrator_ai.Prelude.{
  ◌≡◌, ◌≢◌, ◌↔◌, inl, inr, some, none, true, false, [], ◌∷◌, List, length, refl, arith, Bool,
  Option, not,
}
use edge_orchestrator_ai.Core.Types.{TaskId}
use edge_orchestrator_ai.Workload.Dag.{WorkloadDag, Task, task_count}
use edge_orchestrator_ai.Workload.Dag.Iteration.{Iteration}
use edge_orchestrator_ai.Workload.Dag.Graph.{IsWellFormed, IsClosed, IsAcyclic}
use edge_orchestrator_ai.Workload.Dag.Kahn.{topological_order}
use edge_orchestrator_ai.Workload.Dag.Kahn.Order.{IsAcyclic-iff_length}
use edge_orchestrator_ai.Workload.Dag.Cycle.{has_cycle, is_valid}
use edge_orchestrator_ai.Workload.Dag.Cycle.Decides.{has_cycle_decides}

-- In a well-formed graph whose edges join tasks, topological_order returns as many tasks as there
-- are exactly when has_cycle ends and says false.
pub order_complete_iff_no_cycle :
    (it : Iteration) (g : WorkloadDag)
    → IsWellFormed g
    → IsClosed g
    → (length (topological_order it g) ≡ task_count g) ↔ (has_cycle g ≡ some false)
order_complete_iff_no_cycle it g wf closed = elim (has_cycle_decides g closed) [
  | inl (found, cyclic) ↦
      (λ e. absurd (cyclic ((IsAcyclic-iff_length it g wf closed).1 e)), λ e. cc)
  | inr (clear, acyclic) ↦ (λ e. clear, λ e. (IsAcyclic-iff_length it g wf closed).0 acyclic)
]

valid_cases :
    (tasks : List (TaskId × Task)) (cyclic : Bool) {r : Option Bool}
    → r ≡ some cyclic
    → ((elim tasks [
      | [] ↦ some false
      | task ∷ rest ↦ elim r [ none ↦ none | some c ↦ some (not c) ]
    ])
        ≡ some true)
      ↔ ((tasks ≢ []) × (cyclic ≡ false))
valid_cases [] cyclic e = (λ h. cc, λ h. absurd (h.0 refl))
valid_cases (task ∷ rest) true e = ground arith
valid_cases (task ∷ rest) false e = (λ h. (λ n. cc, refl), λ h. rw e)

-- In a graph whose edges join tasks, is_valid ends and says true exactly when the graph has a
-- task and some ranking makes every edge go upwards.
pub is_valid_iff :
    (g : WorkloadDag) → IsClosed g → (is_valid g ≡ some true) ↔ ((g.tasks ≢ []) × IsAcyclic g)
unfolding is_valid
is_valid_iff g closed = elim (has_cycle_decides g closed) [
  | inl (found, cyclic) ↦
      let (there, back) = valid_cases g.tasks true found in
      (λ e. let bad = (there e).1 in cc, λ h. absurd (cyclic h.1))
  | inr (clear, acyclic) ↦
      let (there, back) = valid_cases g.tasks false clear in
      (λ e. ((there e).0, acyclic), λ h. back (h.0, refl))
]
