-- ===== src/Workload/Dag/Cycle.antt =====
-- WorkloadDAG::has_cycle and is_valid of src/workload/dag.cpp: depth-first search with three colours
-- and an explicit stack.
pub mod Rule
pub mod Invariant
pub mod Fuel
pub mod Search
pub mod Decides
use edge_orchestrator_ai.Prelude.{
  ℕ, zero, suc, ◌+◌, Bool, true, false, not, List, [], ◌∷◌, ◌++◌, Option, none, some, length,
  string_key, get_elem?,
}
use edge_orchestrator_ai.Prelude.HashMap.{find_or, assign, keys}
use edge_orchestrator_ai.Core.Types.{TaskId}
use edge_orchestrator_ai.Workload.Dag.{Task, WorkloadDag}

pub data Color : Type 0 where
  white gray black : Color

-- color[id], which is White where the map has no entry
abbrev pub color_of : List (TaskId × Color) → TaskId → Color
color_of color id = find_or white id color

-- A frame is a node and the index of the neighbour to look at next.
abbrev pub Frame : Type 0
Frame = TaskId × ℕ

pub data Outcome : Type 0 where
  back_edge : Outcome
  done : List (TaskId × Color) → Outcome
  out_of_fuel : Outcome

abbrev pub neighbors : List (TaskId × List TaskId) → TaskId → List TaskId
neighbors adj node = find_or [] node adj

-- The while loop from one start, with one unit of fuel a round.
pub dfs : List (TaskId × List TaskId) → ℕ → List (TaskId × Color) → List Frame → Outcome
dfs adj fuel color [] = done color
dfs adj zero color (frame ∷ stack) = out_of_fuel
dfs adj (suc fuel) color ((node, idx) ∷ stack) = elim (get_elem? (neighbors adj node) idx) [
  | none ↦ dfs adj fuel (assign node black color) stack
  | some neighbor ↦ elim (color_of color neighbor) [
    | gray ↦ back_edge
    | white ↦ dfs adj fuel (assign neighbor gray color) ((neighbor, 0) ∷ (node, idx + 1) ∷ stack)
    | black ↦ dfs adj fuel color ((node, idx + 1) ∷ stack)
  ]
]

-- The outer loop over the tasks.
pub search :
    List (TaskId × List TaskId) → ℕ → List (TaskId × Task) → List (TaskId × Color) → Outcome
search adj fuel [] color = done color
search adj fuel ((start_id, task) ∷ tasks) color = elim (color_of color start_id) [
  | white ↦ elim (dfs adj fuel (assign start_id gray color) ((start_id, 0) ∷ [])) [
    | back_edge ↦ back_edge
    | done color' ↦ search adj fuel tasks color'
    | out_of_fuel ↦ out_of_fuel
  ]
  | gray ↦ search adj fuel tasks color
  | black ↦ search adj fuel tasks color
]

-- color[id] = Color::White for each task
pub all_white : List (TaskId × Task) → List (TaskId × Color) → List (TaskId × Color)
all_white [] color = color
all_white ((id, task) ∷ tasks) color = all_white tasks (assign id white color)

-- Every node that the search can meet: the tasks and the targets of edges.
abbrev pub targets : List (TaskId × List TaskId) → List TaskId
targets [] = []
targets ((u, ns) ∷ adj) = ns ++ targets adj

-- Two rounds for each node and one for each of its edges.
pub rounds : List (TaskId × List TaskId) → List TaskId → ℕ
rounds adj [] = 0
rounds adj (v ∷ vs) = length (neighbors adj v) + 2 + rounds adj vs

unfoldable pub has_cycle : WorkloadDag → Option Bool
unfolding search dfs all_white rounds
has_cycle g =
    elim (search g.adj_list (rounds g.adj_list (keys g.tasks ++ targets g.adj_list)) g.tasks
      (all_white g.tasks [])) [
        | back_edge ↦ some true
        | done color ↦ some false
        | out_of_fuel ↦ none
      ]

unfoldable pub is_valid : WorkloadDag → Option Bool
is_valid g = elim g.tasks [
  | [] ↦ some false
  | task ∷ tasks ↦ elim (has_cycle g) [ none ↦ none | some cyclic ↦ some (not cyclic) ]
]
