-- ===== src/Workload/Dag/Cycle/Invariant.antt =====
-- The invariant of the depth-first search: what the colours, the stack and the finished nodes say
-- of one another.
use edge_orchestrator_ai.Prelude.{
  ℕ, ◌+◌, ◌<◌, ◌≡◌, ◌↔◌, ◌⊎◌, inl, inr, true, List, [], ◌∷◌, Option, none, some, string_key, elem,
  Distinct, arith, get_elem?, elem-get_elem?, get_elem?-elem, get_elem?_bound, dec_lt,
}
use mathlib.Core.Logic.{⊎_elim}
use edge_orchestrator_ai.Prelude.HashMap.{assign, find_or-assign}
use edge_orchestrator_ai.Core.Types.{TaskId}
use edge_orchestrator_ai.Workload.Dag.Kahn.Pending.{Edge}
use edge_orchestrator_ai.Workload.Dag.Cycle.{Color, white, gray, black, color_of, Frame, neighbors}

abbrev pub nodes_of : List Frame → List TaskId
nodes_of [] = []
nodes_of ((node, idx) ∷ stack) = node ∷ nodes_of stack

module _ (adj : List (TaskId × List TaskId)) where
  -- The targets of each finished node were finished before it; the last one finished stands first.
  abbrev pub IsFinished : List TaskId → Type 0
  IsFinished [] = Unit {0}
  IsFinished (u ∷ fin) = ((v : TaskId) → Edge adj u v → elem v fin ≡ true) × IsFinished fin

  -- The neighbours of `node` before `idx` are finished, but perhaps the one that `above` stands for.
  abbrev pub Explored : List TaskId → TaskId → ℕ → Option TaskId → Type 0
  Explored fin node idx above =
      (i : ℕ) (w : TaskId)
      → i < idx
      → get_elem? (neighbors adj node) i ≡ some w
      → (elem w fin ≡ true) ⊎ (above ≡ some w)

  -- The frames under `above` lead to it by edges.
  abbrev pub IsPath : List TaskId → TaskId → List Frame → Type 0
  IsPath fin above [] = Unit {0}
  IsPath fin above ((node, idx) ∷ stack) =
      Edge adj node above × Explored fin node idx (some above) × IsPath fin node stack

  abbrev pub Frames : List TaskId → List Frame → Type 0
  Frames fin [] = Unit {0}
  Frames fin ((node, idx) ∷ stack) = Explored fin node idx none × IsPath fin node stack

  pub record Inv (color : List (TaskId × Color)) (stack : List Frame) (fin : List TaskId)
      : Type 0 where
    pub blacks : (v : TaskId) → (color_of color v ≡ black) ↔ (elem v fin ≡ true)
    pub grays : (v : TaskId) → (color_of color v ≡ gray) ↔ (elem v (nodes_of stack) ≡ true)
    pub distinct : Distinct (nodes_of stack)
    pub finished : IsFinished fin
    pub frames : Frames fin stack

  -- Finishing a node keeps what was explored.
  IsPath-cons :
      (fin : List TaskId) (new above : TaskId) (stack : List Frame)
      → IsPath fin above stack
      → IsPath (new ∷ fin) above stack
  unfolding elem
  IsPath-cons fin new above [] p = tt
  IsPath-cons fin new above ((node, idx) ∷ stack) p =
      (p.0, λ i w lt at. ground (arith, p.1 i w lt at), IsPath-cons fin new node stack p.2)

  -- The frame under a node that is finished goes on.
  Frames-pop :
      (fin : List TaskId) (node : TaskId) (stack : List Frame)
      → IsPath fin node stack
      → Frames (node ∷ fin) stack
  unfolding elem
  Frames-pop fin node [] p = tt
  Frames-pop fin node ((below, idx) ∷ stack) p =
      (λ i w lt at. ground (arith, p.1 i w lt at), IsPath-cons fin node below stack p.2)

  module _ (color : List (TaskId × Color)) (node : TaskId) (idx : ℕ) (stack : List Frame)
      (fin : List TaskId) (inv : Inv color ((node, idx) ∷ stack) fin) where
    -- No neighbour is left: the node is finished.
    pub pop-Inv :
        get_elem? (neighbors adj node) idx ≡ none → Inv (assign node black color) stack (node ∷ fin)
    unfolding elem
    pop-Inv last = record {
      blacks = λ v. ground (arith, find_or-assign white node v black color, inv.blacks v);
      grays =
          λ v. ground (arith, find_or-assign white node v black color, inv.grays v, inv.distinct.0);
      distinct = inv.distinct.1;
      finished = (
        λ v e.
            let (i, at) = elem-get_elem? v (neighbors adj node) e in
            elim (inv.frames.0 i v (get_elem?_bound (neighbors adj node) idx i last at) at) [
              | inl f ↦ f
              | inr bad ↦ cc
            ],
        inv.finished,
      );
      frames = Frames-pop fin node stack inv.frames.1;
    }

    -- The next neighbour is black.
    pub skip-Inv :
        (w : TaskId)
        → get_elem? (neighbors adj node) idx ≡ some w
        → color_of color w ≡ black
        → Inv color ((node, idx + 1) ∷ stack) fin
    skip-Inv w at e = record {
      blacks = inv.blacks;
      grays = inv.grays;
      distinct = inv.distinct;
      finished = inv.finished;
      frames = (
        λ i x lt at'. elim (dec_lt i idx) [
          | yes before ↦ inv.frames.0 i x before at'
          | no last ↦
              let here : i ≡ idx = omega arith in inl ((inv.blacks x).0 (ground (arith, here)))
        ],
        inv.frames.1,
      );
    }

    -- The next neighbour is white: it is pushed.
    pub push-Inv :
        (w : TaskId)
        → get_elem? (neighbors adj node) idx ≡ some w
        → color_of color w ≡ white
        → Inv (assign w gray color) ((w, 0) ∷ (node, idx + 1) ∷ stack) fin
    unfolding elem
    push-Inv w at e = record {
      blacks = λ v. ground (arith, find_or-assign white w v gray color, inv.blacks v);
      grays = λ v. ground (arith, find_or-assign white w v gray color, inv.grays v);
      distinct = (ground (arith, inv.grays w), inv.distinct);
      finished = inv.finished;
      frames = (
        λ i x lt at'. absurd (omega arith),
        (
          get_elem?-elem w (neighbors adj node) idx at,
          λ i x lt at'. elim (dec_lt i idx) [
            | yes before ↦ ⊎_elim inl (λ bad. cc) (inv.frames.0 i x before at')
            | no last ↦ let here : i ≡ idx = omega arith in inr (ground (arith, here))
          ],
          inv.frames.1,
        ),
      );
    }
