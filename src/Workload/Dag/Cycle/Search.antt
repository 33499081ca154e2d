-- ===== src/Workload/Dag/Cycle/Search.antt =====
-- What the depth-first search finds: a cycle, or an order in which every node was finished.
use edge_orchestrator_ai.Prelude.{
  ℕ, zero, suc, ◌+◌, ◌<◌, ◌≡◌, ◌≢◌, refl, true, List, [], ◌∷◌, some, string_key, elem, arith,
  get_elem?, get_elem?-elem,
}
use edge_orchestrator_ai.Prelude.HashMap.{assign, find_or-assign, find_or-assign_self, keys}
use edge_orchestrator_ai.Core.Types.{TaskId}
use edge_orchestrator_ai.Workload.Dag.{Task}
use edge_orchestrator_ai.Workload.Dag.Kahn.Pending.{Edge}
use edge_orchestrator_ai.Workload.Dag.Cycle.Rule.{dfs_round}
use edge_orchestrator_ai.Workload.Dag.Cycle.Invariant.{
  Inv, IsPath, nodes_of, pop-Inv, skip-Inv, push-Inv,
}
use edge_orchestrator_ai.Workload.Dag.Cycle.{
  Color, white, gray, black, color_of, Frame, neighbors, dfs, Outcome, back_edge, done, out_of_fuel,
  search,
}

module _ (adj : List (TaskId × List TaskId)) where
  abbrev pub IsRanked : (TaskId → ℕ) → Type 0
  IsRanked rank = (u v : TaskId) → Edge adj u v → rank u < rank v

  -- Along the stack the rank falls.
  IsPath-lt :
      (rank : TaskId → ℕ) (fin : List TaskId) (above w : TaskId) (stack : List Frame)
      → IsRanked rank
      → IsPath adj fin above stack
      → elem w (nodes_of stack) ≡ true
      → rank w < rank above
  unfolding elem
  IsPath-lt rank fin above w [] ranked p m = cc
  IsPath-lt rank fin above w ((node, idx) ∷ stack) ranked p m =
      ground (arith, ranked node above p.0, IsPath-lt rank fin node w stack ranked p.2)

  abbrev pub Keeps : List (TaskId × Color) → List (TaskId × Color) → Type 0
  Keeps color c = (v : TaskId) → color_of color v ≢ white → color_of c v ≢ white

  -- A back edge leaves no ranking; a search that ends leaves each node that it met finished.
  abbrev pub Ends : List (TaskId × Color) → Outcome → Type 0
  Ends color back_edge = (rank : TaskId → ℕ) → ¬ IsRanked rank
  Ends color (done c) = (fin : List TaskId) × Inv adj c [] fin × Keeps color c
  Ends color out_of_fuel = Unit {0}

  Ends-from :
      (color color' : List (TaskId × Color)) (r : Outcome)
      → Keeps color color'
      → Ends color' r
      → Ends color r
  Ends-from color color' back_edge keeps e = e
  Ends-from color color' (done c) keeps e = (e.0, e.1, λ v n. e.2 v (keeps v n))
  Ends-from color color' out_of_fuel keeps e = tt

  Keeps-assign :
      (color : List (TaskId × Color)) (w : TaskId) (c : Color)
      → c ≢ white
      → Keeps color (assign w c color)
  Keeps-assign color w c n v h e = ground (arith, find_or-assign white w v c color)

  gray-cycle :
      (color : List (TaskId × Color)) (node : TaskId) (idx : ℕ) (stack : List Frame)
      (fin : List TaskId) (w : TaskId)
      → Inv adj color ((node, idx) ∷ stack) fin
      → get_elem? (neighbors adj node) idx ≡ some w
      → color_of color w ≡ gray
      → (rank : TaskId → ℕ) → ¬ IsRanked rank
  unfolding elem
  gray-cycle color node idx stack fin w inv at e rank ranked = ground (
    arith,
    ranked node w (get_elem?-elem w (neighbors adj node) idx at),
    IsPath-lt rank fin node w stack ranked inv.frames.1,
    inv.grays w,
  )

  pub dfs-Ends :
      (fuel : ℕ) (color : List (TaskId × Color)) (stack : List Frame) (fin : List TaskId)
      → Inv adj color stack fin
      → Ends color (dfs adj fuel color stack)
  unfolding dfs
  dfs-Ends fuel color [] fin inv = (fin, inv, λ v n. n)
  dfs-Ends zero color ((node, idx) ∷ stack) fin inv = tt
  dfs-Ends (suc fuel) color ((node, idx) ∷ stack) fin inv =
      dfs_round (Ends color) adj fuel color node idx stack
        (λ last.
          Ends-from color (assign node black color) _ (Keeps-assign color node black (λ e. cc)) (
            dfs-Ends fuel (assign node black color) stack (node ∷ fin)
              (pop-Inv adj color node idx stack fin inv last)))
        (λ w at e. gray-cycle color node idx stack fin w inv at e)
        (λ w at e. Ends-from color (assign w gray color) _ (Keeps-assign color w gray (λ e. cc)) (
          dfs-Ends fuel (assign w gray color) ((w, 0) ∷ (node, idx + 1) ∷ stack) fin
            (push-Inv adj color node idx stack fin inv w at e)))
        (λ w at e.
          dfs-Ends fuel color ((node, idx + 1) ∷ stack) fin
            (skip-Inv adj color node idx stack fin inv w at e))

  start-Inv :
      (color : List (TaskId × Color)) (s : TaskId) (fin : List TaskId)
      → Inv adj color [] fin
      → color_of color s ≡ white
      → Inv adj (assign s gray color) ((s, 0) ∷ []) fin
  unfolding elem
  start-Inv color s fin inv e = record {
    blacks = λ v. ground (arith, find_or-assign white s v gray color, inv.blacks v);
    grays = λ v. ground (arith, find_or-assign white s v gray color, inv.grays v);
    distinct = (refl, tt);
    finished = inv.finished;
    frames = (λ i w lt at. absurd (omega arith), tt);
  }

  -- What the outer loop leaves: each task of the list was met.
  abbrev pub Finds : List (TaskId × Task) → List (TaskId × Color) → Outcome → Type 0
  Finds tasks color back_edge = (rank : TaskId → ℕ) → ¬ IsRanked rank
  Finds tasks color (done c) =
      (fin : List TaskId) × Inv adj c [] fin
      × Keeps color c
      × ((v : TaskId) → elem v (keys tasks) ≡ true → color_of c v ≢ white)
  Finds tasks color out_of_fuel = Unit {0}

  Finds-cons :
      (tasks : List (TaskId × Task)) (id : TaskId) (task : Task)
      (color color' : List (TaskId × Color)) (r : Outcome)
      → Keeps color color'
      → color_of color' id ≢ white
      → Finds tasks color' r
      → Finds ((id, task) ∷ tasks) color r
  unfolding elem
  Finds-cons tasks id task color color' back_edge keeps met e = e
  Finds-cons tasks id task color color' (done c) keeps met e =
      (e.0, e.1, λ v n. e.2 v (keeps v n), λ v m w. ground (arith, e.3 v, e.2 id met, w))
  Finds-cons tasks id task color color' out_of_fuel keeps met e = tt

  module _ (fuel : ℕ) (tasks : List (TaskId × Task))
      (ih : (color : List (TaskId × Color)) (fin : List TaskId)
        → Inv adj color [] fin
        → Finds tasks color (search adj fuel tasks color))
      (id : TaskId) (task : Task) (color : List (TaskId × Color)) where
    -- The search goes on from the colours that the start leaves.
    from_done :
        (c : List (TaskId × Color)) (fin : List TaskId)
        → Inv adj c [] fin
        → Keeps color c
        → color_of c id ≢ white
        → Finds ((id, task) ∷ tasks) color (search adj fuel tasks c)
    from_done c fin inv keeps met = Finds-cons tasks id task color c _ keeps met (ih c fin inv)

    after_dfs :
        (r : Outcome)
        → Ends (assign id gray color) r
        → Finds ((id, task) ∷ tasks) color (elim r [
          | back_edge ↦ back_edge
          | done color' ↦ search adj fuel tasks color'
          | out_of_fuel ↦ out_of_fuel
        ])
    after_dfs back_edge e = e
    after_dfs (done c) e =
        from_done c e.0 e.1 (λ v n. e.2 v (Keeps-assign color id gray (λ w. cc) v n))
          (e.2 id (λ w. ground (arith, find_or-assign_self white id gray color)))
    after_dfs out_of_fuel e = tt

    by_color :
        (c : Color) (fin : List TaskId)
        → Inv adj color [] fin
        → color_of color id ≡ c
        → Finds ((id, task) ∷ tasks) color (search adj fuel ((id, task) ∷ tasks) color)
    unfolding search
    by_color white fin inv e =
        rw (e, search)
          (after_dfs (dfs adj fuel (assign id gray color) ((id, 0) ∷ [])) (
            dfs-Ends fuel (assign id gray color) ((id, 0) ∷ []) fin (start-Inv color id fin inv e)))
    by_color gray fin inv e = rw (e, search) (from_done color fin inv (λ v n. n) (λ w. cc))
    by_color black fin inv e = rw (e, search) (from_done color fin inv (λ v n. n) (λ w. cc))

  pub search-Finds :
      (fuel : ℕ) (tasks : List (TaskId × Task)) (color : List (TaskId × Color)) (fin : List TaskId)
      → Inv adj color [] fin
      → Finds tasks color (search adj fuel tasks color)
  unfolding search elem
  search-Finds fuel [] color fin inv = (fin, inv, λ v n. n, λ v m. cc)
  search-Finds fuel ((id, task) ∷ tasks) color fin inv =
      by_color fuel tasks (search-Finds fuel tasks) id task color (color_of color id) fin inv refl
