-- ===== src/Workload/Dag/Cycle/Fuel.antt =====
-- The depth-first search has enough fuel: each round takes one unit of the work that is left.
use edge_orchestrator_ai.Prelude.{
  ℕ, zero, suc, ◌+◌, ◌-◌, ◌≤◌, ◌≡◌, ◌≢◌, true, List, [], ◌∷◌, string_key, elem, arith, length,
  elem-append_left, elem-append_right, get_elem?-elem, get_elem?_lt,
}
use edge_orchestrator_ai.Prelude.HashMap.{find_or, assign, find_or-assign}
use edge_orchestrator_ai.Core.Types.{TaskId}
use edge_orchestrator_ai.Workload.Dag.Kahn.Pending.{Edge}
use edge_orchestrator_ai.Workload.Dag.Cycle.Rule.{dfs_round}
use edge_orchestrator_ai.Workload.Dag.Cycle.{
  Color, white, gray, black, color_of, Frame, neighbors, dfs, out_of_fuel, rounds, targets,
}

pub elem-targets :
    (adj : List (TaskId × List TaskId)) (u v : TaskId) → Edge adj u v → elem v (targets adj) ≡ true
unfolding find_or elem
elem-targets [] u v e = cc
elem-targets ((w, ns) ∷ adj) u v e = ground (
  arith,
  elem-targets adj u v,
  elem-append_left v ns (targets adj),
  elem-append_right v ns (targets adj),
)

module _ (adj : List (TaskId × List TaskId)) where
  abbrev weight : Color → TaskId → ℕ
  weight white v = length (neighbors adj v) + 2
  weight _ v = 0

  -- What the nodes that are still white can cost.
  abbrev pub white_work : List (TaskId × Color) → List TaskId → ℕ
  white_work color [] = 0
  white_work color (v ∷ vs) = weight (color_of color v) v + white_work color vs

  -- What the frames on the stack cost.
  abbrev pub frame_work : List Frame → ℕ
  frame_work [] = 0
  frame_work ((node, idx) ∷ stack) = (length (neighbors adj node) - idx + 1) + frame_work stack

  pub white_work-le-rounds :
      (color : List (TaskId × Color)) (vs : List TaskId) → white_work color vs ≤ rounds adj vs
  unfolding rounds
  white_work-le-rounds color [] = omega arith
  white_work-le-rounds color (v ∷ vs) = ground (arith, white_work-le-rounds color vs)

  white_work_mono :
      (color : List (TaskId × Color)) (w : TaskId) (c : Color) (vs : List TaskId)
      → c ≢ white
      → white_work (assign w c color) vs ≤ white_work color vs
  white_work_mono color w c [] n = omega arith
  white_work_mono color w c (v ∷ vs) n =
      ground (arith, white_work_mono color w c vs n, find_or-assign white w v c color)

  pub white_work-falls :
      (color : List (TaskId × Color)) (w : TaskId) (vs : List TaskId)
      → color_of color w ≡ white
      → elem w vs ≡ true
      → white_work (assign w gray color) vs + length (neighbors adj w) + 2 ≤ white_work color vs
  unfolding elem
  white_work-falls color w [] e m = cc
  white_work-falls color w (v ∷ vs) e m = ground (
    arith,
    white_work-falls color w vs e,
    white_work_mono color w gray vs,
    find_or-assign white w v gray color,
  )

  module _ (nodes : List TaskId)
      (closed : (u v : TaskId) → Edge adj u v → elem v nodes ≡ true) where
    pub dfs-ne-out_of_fuel :
        (fuel : ℕ) (color : List (TaskId × Color)) (stack : List Frame)
        → white_work color nodes + frame_work stack ≤ fuel
        → dfs adj fuel color stack ≢ out_of_fuel
    unfolding dfs
    dfs-ne-out_of_fuel fuel color [] room = λ e. cc
    dfs-ne-out_of_fuel zero color ((node, idx) ∷ stack) room = absurd (omega arith)
    dfs-ne-out_of_fuel (suc fuel) color ((node, idx) ∷ stack) room =
        dfs_round (λ r. r ≢ out_of_fuel) adj fuel color node idx stack
          (λ last.
            dfs-ne-out_of_fuel fuel (assign node black color) stack
              (omega (arith, white_work_mono color node black nodes (λ e. cc))))
          (λ w at e. λ bad. cc)
          (λ w at e.
            dfs-ne-out_of_fuel fuel (assign w gray color) ((w, 0) ∷ (node, idx + 1) ∷ stack) (
              omega (
                arith,
                get_elem?_lt (neighbors adj node) idx at,
                white_work-falls color w nodes e
                    (closed node w (get_elem?-elem w (neighbors adj node) idx at)),
              )))
          (λ w at e.
            dfs-ne-out_of_fuel fuel color ((node, idx + 1) ∷ stack)
              (omega (arith, get_elem?_lt (neighbors adj node) idx at)))
