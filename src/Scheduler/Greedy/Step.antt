-- ===== src/Scheduler/Greedy/Step.antt =====
-- Which node the greedy policy picks for a task.
use edge_orchestrator_ai.Prelude.{
  ℕ, ◌+◌, ◌≤◌, ◌≡◌, ap, ◌⊎◌, inl, inr, true, false, List, some, get_elem?, leb, leb→le, arith,
}
use edge_orchestrator_ai.Core.Floats.{Floats}
use edge_orchestrator_ai.Workload.Dag.{Task}
use edge_orchestrator_ai.Scheduler.Plan.{}
use edge_orchestrator_ai.Scheduler.Choice.{Chosen, choose, choose-Chosen}
use edge_orchestrator_ai.Scheduler.Greedy.{NodeState, score, higher, has_memory, best_node}

from_zero : (j : ℕ) → 0 + j ≡ j
from_zero j = omega arith

fits : (a b : ℕ) → a ≤ b → leb a b ≡ true
fits a b h = ground arith

module _ (f : Floats) where
  open f use {Float, lt, neg, max_value, lt_irrefl, lt_trans}

  -- No node with the memory for the task has a score above the bound.
  abbrev pub NoneHigher : Task → List (NodeState Float) → Float → Type 0
  NoneHigher task nodes bound =
      (j : ℕ) (n : NodeState Float)
      → get_elem? nodes j ≡ some n
      → task.profile.memory_bytes ≤ n.resources.memory_available_bytes
      → lt bound (score f task j n) ≡ false

  -- best_node is the index of a node that has the memory for the task, and no node with that
  -- memory has a higher score; or it is 0, and no node with that memory has a score above the
  -- least finite float.
  pub best_node_lem :
      (task : Task) (nodes : List (NodeState Float))
      → ((n : NodeState Float) × (get_elem? nodes (best_node f task nodes) ≡ some n)
          × (task.profile.memory_bytes ≤ n.resources.memory_available_bytes)
          × NoneHigher task nodes (score f task (best_node f task nodes) n))
        ⊎ ((best_node f task nodes ≡ 0) × NoneHigher task nodes (neg max_value))
  unfolding best_node
  best_node_lem task nodes = elim chosen.picked [
    | inl e ↦ inr (
      ap (λ r. r.1) e,
      λ j n at m. rw (ap (λ r. r.0) e, from_zero j) at (chosen.none_better j n at (fits _ _ m)),
    )
    | inr (j, n, at, o, e) ↦ inl (
      n,
      rw (ap (λ r. r.1) e, from_zero j) at,
      leb→le _ _ o,
      λ i q there m.
          rw (ap (λ r. r.1) e)
            (rw (ap (λ r. r.0) e, from_zero i) at (chosen.none_better i q there (fits _ _ m))),
    )
  ]
    where
      chosen :
          Chosen
            (higher f)
            (has_memory f task)
            (score f task)
            nodes
            0
            (neg max_value, 0)
            (choose (higher f) (has_memory f task) (score f task) nodes 0 (neg max_value) 0)
      chosen =
          choose-Chosen (higher f) _ _ lt_irrefl (λ a b c x y. lt_trans c b a y x) nodes 0
            (neg max_value) 0
