-- ===== src/Workload/Dag/Cycle/Rule.antt =====
-- One round of the depth-first search, by cases.
use edge_orchestrator_ai.Prelude.{
  ℕ, suc, ◌+◌, ◌≡◌, refl, inl, inr, List, ◌∷◌, none, some, string_key, get_elem?, Option-cases,
}
use edge_orchestrator_ai.Prelude.HashMap.{assign}
use edge_orchestrator_ai.Core.Types.{TaskId}
use edge_orchestrator_ai.Workload.Dag.Cycle.{
  Color, white, gray, black, color_of, Frame, neighbors, dfs, Outcome, back_edge,
}

module _ {ℓ} (P : Outcome → Type ℓ) (adj : List (TaskId × List TaskId)) (fuel : ℕ)
    (color : List (TaskId × Color)) (node : TaskId) (idx : ℕ) (stack : List Frame)
    (pop : get_elem? (neighbors adj node) idx ≡ none
      → P (dfs adj fuel (assign node black color) stack))
    (cycle : (w : TaskId)
      → get_elem? (neighbors adj node) idx ≡ some w
      → color_of color w ≡ gray
      → P back_edge)
    (push : (w : TaskId)
      → get_elem? (neighbors adj node) idx ≡ some w
      → color_of color w ≡ white
      → P (dfs adj fuel (assign w gray color) ((w, 0) ∷ (node, idx + 1) ∷ stack)))
    (skip : (w : TaskId)
      → get_elem? (neighbors adj node) idx ≡ some w
      → color_of color w ≡ black
      → P (dfs adj fuel color ((node, idx + 1) ∷ stack))) where
  color_cases :
      (w : TaskId) (c : Color)
      → get_elem? (neighbors adj node) idx ≡ some w
      → color_of color w ≡ c
      → P (dfs adj (suc fuel) color ((node, idx) ∷ stack))
  unfolding dfs
  color_cases w white at e = rw (at, dfs, e) (push w at e)
  color_cases w gray at e = rw (at, dfs, e) (cycle w at e)
  color_cases w black at e = rw (at, dfs, e) (skip w at e)

  pub dfs_round : P (dfs adj (suc fuel) color ((node, idx) ∷ stack))
  unfolding dfs
  dfs_round = elim (Option-cases (get_elem? (neighbors adj node) idx)) [
    | inl last ↦ rw (last, dfs) (pop last)
    | inr (w, at) ↦ color_cases w (color_of color w) at refl
  ]
