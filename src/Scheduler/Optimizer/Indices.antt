-- ===== src/Scheduler/Optimizer/Indices.antt =====
-- The map of tasks to node indices that the local search keeps, as a function of the decisions.
use edge_orchestrator_ai.Prelude.{
  ℕ, zero, suc, ◌+◌, ◌≡◌, refl, sym, ap, ◌∙◌, true, false, List, [], ◌∷◌, some, get_elem?,
  string_key, elem, if_pos, if_neg, String_discrete, arith, Distinct, some_eq, inl, inr, Bool-cases,
}
use edge_orchestrator_ai.Prelude.HashMap.{
  find, find_or, assign, keys, find-assign, find_or-find, elem-keys-assign,
}
use edge_orchestrator_ai.Prelude.HashMap.Writes.{assign_twice, assign_comm}
use edge_orchestrator_ai.Core.Types.{NodeId, TaskId}
use edge_orchestrator_ai.Workload.Dag.{Task, WorkloadDag, get_task}
use edge_orchestrator_ai.Scheduler.Plan.{SchedulingDecision}
use edge_orchestrator_ai.Scheduler.Optimizer.{NodeBudget, alter, decided, names}
use edge_orchestrator_ai.Scheduler.Optimizer.LocalSearch.{index_nodes, Placement, place, place_at}
use edge_orchestrator_ai.Scheduler.Optimizer.Names.{All}
use edge_orchestrator_ai.Scheduler.Optimizer.Placements.{}

-- Indices of names that are not in the list stay.
find-index_nodes_absent :
    (x : NodeId) (ids : List NodeId) (i : ℕ) (m : List (NodeId × ℕ))
    → elem x ids ≡ false
    → find x (index_nodes ids i m) ≡ find x m
unfolding index_nodes elem
find-index_nodes_absent x [] i m h = refl
find-index_nodes_absent x (y ∷ ids) i m h = elim (String_discrete x y) [
  | yes p ↦ let bad : true ≡ false = rw (if_pos (String_discrete x y) p) at h in cc
  | no n ↦
      find-index_nodes_absent x ids (i + 1) (assign y i m)
        (rw (if_neg (String_discrete x y) n) at h)
      ∙ find-assign y x i m
      ∙ if_neg (String_discrete x y) n _ _
]

-- With distinct names, each has the index at which it stands.
pub find-index_nodes :
    (nodes : List NodeBudget) (i j : ℕ) (m : List (NodeId × ℕ)) (node : NodeBudget)
    → Distinct (names nodes)
    → get_elem? nodes j ≡ some node
    → find node.id (index_nodes (names nodes) i m) ≡ some (i + j)
unfolding index_nodes
find-index_nodes [] i j m node h at = cc
find-index_nodes (n ∷ nodes) i zero m node h at =
    let same : node.id ≡ n.id = cc in
    rw same (
      find-index_nodes_absent n.id (names nodes) (i + 1) (assign n.id i m) h.0
      ∙ find-assign n.id n.id i m
      ∙ if_pos (String_discrete n.id n.id) refl _ _
      ∙ ap some (omega arith))
find-index_nodes (n ∷ nodes) i (suc j) m node h at =
    find-index_nodes nodes (i + 1) j (assign n.id i m) node h.1 at ∙ ap some (omega arith)

-- Each name has an index.
pub index_nodes_has :
    (x : NodeId) (ids : List NodeId) (i : ℕ) (m : List (NodeId × ℕ))
    → elem x ids ≡ true
    → (j : ℕ) × (find x (index_nodes ids i m) ≡ some j)
unfolding index_nodes elem
index_nodes_has x [] i m h = cc
index_nodes_has x (y ∷ ids) i m h = elim (Bool-cases (elem x ids)) [
  | inl later ↦ index_nodes_has x ids (i + 1) (assign y i m) later
  | inr last ↦ elim (String_discrete x y) [
    | yes p ↦ (
      i,
      find-index_nodes_absent x ids (i + 1) (assign y i m) last
          ∙ find-assign y x i m
          ∙ if_pos (String_discrete x y) p _ _,
    )
    | no n ↦ let bad : elem x ids ≡ true = rw (if_neg (String_discrete x y) n) at h in cc
  ]
]

module _ (node_index : List (NodeId × ℕ)) where
  abbrev pub index_of_name : NodeId → ℕ
  index_of_name id = find_or 0 id node_index

  -- Each decision writes the index of its node.
  abbrev pub assign_all : List SchedulingDecision → List (TaskId × ℕ) → List (TaskId × ℕ)
  assign_all [] m = m
  assign_all (d ∷ ds) m = assign_all ds (assign d.task_id (index_of_name d.assigned_node) m)

  pub index_of_name-find :
      (id : NodeId) {j : ℕ} → find id node_index ≡ some j → index_of_name id ≡ j
  index_of_name-find id e = find_or-find 0 id node_index ∙ rw e refl

  -- The task of a decision is in the graph, and its node has an index.
  abbrev pub Placeable : WorkloadDag → SchedulingDecision → Type 0
  Placeable g d =
      ((task : Task) × (get_task d.task_id g ≡ some task))
      × ((j : ℕ) × (find d.assigned_node node_index ≡ some j))

  pub place-assign_all :
      (g : WorkloadDag) (ds : List SchedulingDecision) (p : Placement)
      → All (Placeable g) ds
      → (place g node_index ds p).assignment ≡ assign_all ds p.assignment
  unfolding place
  place-assign_all g [] p h = refl
  place-assign_all g (d ∷ ds) p (((task, known), (j, at)), rest) =
      let value = index_of_name-find d.assigned_node at in
      rw (known, at, place)
        (place-assign_all g ds (place_at d (some task) (some j) p) rest
          ∙ ap (λ (i : ℕ). assign_all ds (assign d.task_id i p.assignment)) (sym value))

  -- A write to a key that is there, and that no decision is about, can come first.
  assign-assign_all :
      (t : TaskId) (v : ℕ) (ds : List SchedulingDecision) (m : List (TaskId × ℕ))
      → elem t (decided ds) ≡ false
      → elem t (keys m) ≡ true
      → assign t v (assign_all ds m) ≡ assign_all ds (assign t v m)
  unfolding elem
  assign-assign_all t v [] m absent here = refl
  assign-assign_all t v (d ∷ ds) m absent here = elim (String_discrete t d.task_id) [
    | yes p ↦ let bad : true ≡ false = rw (if_pos (String_discrete t d.task_id) p) at absent in cc
    | no n ↦
        let i = index_of_name d.assigned_node in
        let still : elem t (keys (assign d.task_id i m)) ≡ true =
          elem-keys-assign d.task_id t i m ∙ if_neg (String_discrete t d.task_id) n _ _ ∙ here in
        assign-assign_all t v ds (assign d.task_id i m)
          (rw (if_neg (String_discrete t d.task_id) n) at absent) still
        ∙ ap (λ l. assign_all ds l) (assign_comm t d.task_id v i m n here)
  ]

  -- A new node for one decision is a write of its index.
  pub assign_all-alter :
      (idx : ℕ) (node : NodeId) (ds : List SchedulingDecision) (d : SchedulingDecision)
      (m : List (TaskId × ℕ))
      → Distinct (decided ds)
      → get_elem? ds idx ≡ some d
      → assign_all (alter idx (λ e. record e { assigned_node = node }) ds) m
        ≡ assign d.task_id (index_of_name node) (assign_all ds m)
  unfolding elem
  assign_all-alter idx node [] d m h at = cc
  assign_all-alter zero node (e ∷ ds) d m h at =
      let same : d.task_id ≡ e.task_id = cc in
      let i = index_of_name node in
      let was = assign e.task_id (index_of_name e.assigned_node) m in
      let here : elem e.task_id (keys was) ≡ true =
        elem-keys-assign e.task_id e.task_id _ m
        ∙ if_pos (String_discrete e.task_id e.task_id) refl _ _ in
      rw same (
        ap (λ l. assign_all ds l) (sym (assign_twice e.task_id i (index_of_name e.assigned_node) m))
        ∙ sym (assign-assign_all e.task_id i ds was h.0 here))
  assign_all-alter (suc idx) node (e ∷ ds) d m h at = assign_all-alter idx node ds d _ h.1 at

  find-assign_all_other :
      (t : TaskId) (ds : List SchedulingDecision) (m : List (TaskId × ℕ))
      → elem t (decided ds) ≡ false
      → find t (assign_all ds m) ≡ find t m
  unfolding elem
  find-assign_all_other t [] m absent = refl
  find-assign_all_other t (d ∷ ds) m absent = elim (String_discrete t d.task_id) [
    | yes p ↦ let bad : true ≡ false = rw (if_pos (String_discrete t d.task_id) p) at absent in cc
    | no n ↦
        find-assign_all_other t ds _ (rw (if_neg (String_discrete t d.task_id) n) at absent)
        ∙ find-assign d.task_id t _ m
        ∙ if_neg (String_discrete t d.task_id) n _ _
  ]

  -- The task of each decision is in the map.
  pub find-assign_all :
      (idx : ℕ) (ds : List SchedulingDecision) (d : SchedulingDecision) (m : List (TaskId × ℕ))
      → Distinct (decided ds)
      → get_elem? ds idx ≡ some d
      → find d.task_id (assign_all ds m) ≡ some (index_of_name d.assigned_node)
  find-assign_all idx [] d m h at = cc
  find-assign_all zero (e ∷ ds) d m h at =
      let same : e ≡ d = some_eq at in
      let i = index_of_name d.assigned_node in
      rw same (
        find-assign_all_other d.task_id ds (assign d.task_id i m) (rw same at h.0)
        ∙ find-assign d.task_id d.task_id i m
        ∙ if_pos (String_discrete d.task_id d.task_id) refl _ _)
  find-assign_all (suc idx) (e ∷ ds) d m h at = find-assign_all idx ds d _ h.1 at
