-- ===== src/Workload/Dag/Cycle/Decides.antt =====
-- has_cycle and is_valid decide whether the graph has a cycle.
use edge_orchestrator_ai.Prelude.{
  ℕ, suc, ◌<◌, ◌≡◌, ◌≢◌, refl, ◌⊎◌, inl, inr, true, false, Bool, List, [], ◌∷◌, ◌++◌, none, some,
  string_key, elem, arith, Option, if◌then◌else◌, elem-append_left, elem-append_right,
}
use edge_orchestrator_ai.Prelude.HashMap.{find_or, assign, find_or-assign, keys}
use edge_orchestrator_ai.Core.Types.{TaskId}
use edge_orchestrator_ai.Workload.Dag.{Task, WorkloadDag}
use edge_orchestrator_ai.Workload.Dag.Graph.{IsClosed, IsAcyclic}
use edge_orchestrator_ai.Workload.Dag.Kahn.Pending.{Edge}
use edge_orchestrator_ai.Workload.Dag.Cycle.Invariant.{Inv, IsFinished}
use edge_orchestrator_ai.Workload.Dag.Cycle.Fuel.{
  elem-targets, white_work-le-rounds, dfs-ne-out_of_fuel, white_work-falls,
}
use edge_orchestrator_ai.Workload.Dag.Cycle.Search.{search-Finds, Finds}
use edge_orchestrator_ai.Workload.Dag.Cycle.{
  Color, white, gray, black, color_of, dfs, Outcome, back_edge, done, out_of_fuel, search,
  all_white, rounds, targets, has_cycle,
}

-- The last place of a task in a list that holds it.
last_index : TaskId → List TaskId → ℕ
last_index v [] = 0
last_index v (w ∷ rest) = let i = last_index v rest in if elem v rest then suc i else 0

IsFinished-elem :
    (adj : List (TaskId × List TaskId)) (fin : List TaskId) (u v : TaskId)
    → IsFinished adj fin
    → Edge adj u v
    → elem u fin ≡ true
    → elem v fin ≡ true
unfolding elem
IsFinished-elem adj [] u v h e m = cc
IsFinished-elem adj (w ∷ fin) u v h e m = ground (arith, h.0 v, IsFinished-elem adj fin u v h.1 e)

IsFinished-lt :
    (adj : List (TaskId × List TaskId)) (fin : List TaskId) (u v : TaskId)
    → IsFinished adj fin
    → Edge adj u v
    → elem u fin ≡ true
    → last_index u fin < last_index v fin
unfolding elem last_index
IsFinished-lt adj [] u v h e m = cc
IsFinished-lt adj (w ∷ fin) u v h e m =
    ground (arith, h.0 v, IsFinished-elem adj fin u v h.1 e, IsFinished-lt adj fin u v h.1 e)

color_of-all_white :
    (tasks : List (TaskId × Task)) (color : List (TaskId × Color)) (v : TaskId)
    → color_of color v ≡ white
    → color_of (all_white tasks color) v ≡ white
unfolding all_white
color_of-all_white [] color v h = h
color_of-all_white ((id, task) ∷ tasks) color v h =
    color_of-all_white tasks (assign id white color) v
      (ground (arith, find_or-assign white id v white color))

module _ (adj : List (TaskId × List TaskId)) (nodes : List TaskId)
    (closed : (u v : TaskId) → Edge adj u v → elem v nodes ≡ true) where
  abbrev fuel : ℕ
  fuel = rounds adj nodes

  start-ne-out_of_fuel :
      (color : List (TaskId × Color)) (s : TaskId)
      → elem s nodes ≡ true
      → color_of color s ≡ white
      → dfs adj fuel (assign s gray color) ((s, 0) ∷ []) ≢ out_of_fuel
  start-ne-out_of_fuel color s m e =
      dfs-ne-out_of_fuel adj nodes closed fuel (assign s gray color) ((s, 0) ∷ []) (
        omega (arith, white_work-falls adj color s nodes e m, white_work-le-rounds adj color nodes))

  module _ (tasks : List (TaskId × Task))
      (rest : (color : List (TaskId × Color)) → search adj fuel tasks color ≢ out_of_fuel)
      (id : TaskId) (task : Task) (known : elem id nodes ≡ true) where
    goes_on :
        (r : Outcome)
        → r ≢ out_of_fuel
        → (elim r [
          | back_edge ↦ back_edge
          | done color' ↦ search adj fuel tasks color'
          | out_of_fuel ↦ out_of_fuel
        ])
          ≢ out_of_fuel
    goes_on back_edge n = λ e. cc
    goes_on (done c) n = rest c
    goes_on out_of_fuel n = n

    by_color :
        (c : Color) (color : List (TaskId × Color))
        → color_of color id ≡ c
        → search adj fuel ((id, task) ∷ tasks) color ≢ out_of_fuel
    unfolding search
    by_color white color e = rw (e, search) (goes_on _ (start-ne-out_of_fuel color id known e))
    by_color gray color e = rw (e, search) (rest color)
    by_color black color e = rw (e, search) (rest color)

  search-ne-out_of_fuel :
      (tasks : List (TaskId × Task))
      → ((v : TaskId) → elem v (keys tasks) ≡ true → elem v nodes ≡ true)
      → (color : List (TaskId × Color)) → search adj fuel tasks color ≢ out_of_fuel
  unfolding search elem
  search-ne-out_of_fuel [] sub color = λ e. cc
  search-ne-out_of_fuel ((id, task) ∷ tasks) sub color =
      by_color tasks (search-ne-out_of_fuel tasks (λ v m. sub v (ground arith))) id task
        (sub id (ground arith)) (color_of color id) color refl

module _ (g : WorkloadDag) (closed : IsClosed g) where
  abbrev nodes : List TaskId
  nodes = keys g.tasks ++ targets g.adj_list

  blank : List (TaskId × Color)
  blank = all_white g.tasks []

  blank_white : (v : TaskId) → color_of blank v ≡ white
  unfolding blank find_or
  blank_white v = color_of-all_white g.tasks [] v refl

  blank-Inv : Inv g.adj_list blank [] []
  unfolding elem
  blank-Inv = record {
    blacks = λ v. ground (arith, blank_white v);
    grays = λ v. ground (arith, blank_white v);
    distinct = tt;
    finished = tt;
    frames = tt;
  }

  -- The colours of a finished search rank the tasks.
  finished-IsAcyclic :
      (c : List (TaskId × Color)) (fin : List TaskId)
      → Inv g.adj_list c [] fin
      → ((v : TaskId) → elem v (keys g.tasks) ≡ true → color_of c v ≢ white)
      → IsAcyclic g
  unfolding elem
  finished-IsAcyclic c fin inv met = (
    λ v. last_index v fin,
    λ u v e.
        IsFinished-lt g.adj_list fin u v inv.finished e
          (ground (arith, met u (closed.source u v e), inv.blacks u, inv.grays u)),
  )

  abbrev Verdict : Option Bool → Type 0
  Verdict none = ⊥
  Verdict (some true) = ¬ IsAcyclic g
  Verdict (some false) = IsAcyclic g

  by_outcome :
      (r : Outcome)
      → r ≢ out_of_fuel
      → Finds g.adj_list g.tasks blank r
      → Verdict (elim r [ back_edge ↦ some true | done color ↦ some false | out_of_fuel ↦ none ])
  by_outcome back_edge n f = λ acyclic. f acyclic.0 acyclic.1
  by_outcome (done c) n f = finished-IsAcyclic c f.0 f.1 f.3
  by_outcome out_of_fuel n f = n refl

  has_cycle-Verdict : Verdict (has_cycle g)
  unfolding has_cycle blank
  has_cycle-Verdict =
      by_outcome _
        (search-ne-out_of_fuel g.adj_list nodes
          (λ u v e. elem-append_right v (keys g.tasks) _ (elem-targets g.adj_list u v e)) g.tasks
          (λ v m. elem-append_left v (keys g.tasks) _ m) blank)
        (search-Finds g.adj_list _ g.tasks blank [] blank-Inv)

  decided :
      (r : Option Bool)
      → Verdict r
      → ((r ≡ some true) × ¬ IsAcyclic g) ⊎ ((r ≡ some false) × IsAcyclic g)
  decided none h = absurd h
  decided (some true) h = inl (refl, h)
  decided (some false) h = inr (refl, h)

  -- In a graph whose edges join tasks, has_cycle ends within its fuel; it says false exactly when
  -- some ranking of the tasks makes every edge go upwards, and true otherwise.
  pub has_cycle_decides :
      ((has_cycle g ≡ some true) × ¬ IsAcyclic g) ⊎ ((has_cycle g ≡ some false) × IsAcyclic g)
  has_cycle_decides = decided (has_cycle g) has_cycle-Verdict
