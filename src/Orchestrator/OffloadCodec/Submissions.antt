-- ===== src/Orchestrator/OffloadCodec/Submissions.antt =====
-- Which submissions decode_submission accepts.
use edge_orchestrator_ai.Prelude.{
  Bool, true, false, List, [], ◌∷◌, Option, some, none, String, map, ◌≡◌, ◌≢◌, ◌⊎◌, ◌↔◌, inl, inr,
  refl, sym, elem, elem_self, ℕ, ◌+◌, ◌++◌, count, count_snoc, ite, string_key, arith,
  String_discrete, if_pos, if_neg, ap, ◌∙◌,
}
use edge_orchestrator_ai.Prelude.HashMap.{
  keys, elem-keys-emplace, find_or, find_or-assign, find_or-emplace,
}
use edge_orchestrator_ai.Core.Types.{TaskId}
use edge_orchestrator_ai.Workload.Dag.{Task, WorkloadDag, empty_dag, add_task, add_dependency}
use edge_orchestrator_ai.Workload.Dag.Cycle.{has_cycle, is_valid}
use edge_orchestrator_ai.Workload.Dag.Cycle.Decides.{has_cycle_decides}
use edge_orchestrator_ai.Workload.Dag.Agreement.{is_valid_iff}
use edge_orchestrator_ai.Workload.Dag.Graph.{IsWellFormed, IsClosed, IsAcyclic}
use edge_orchestrator_ai.Workload.Dag.Build.{
  adds_task, adds_dependency, apply-IsWellFormed, empty-IsWellFormed, empty-IsClosed,
  add_task-IsClosed, add_dependency-IsClosed, keys-add_dependency, apply,
}
use edge_orchestrator_ai.Orchestrator.Messages.{TaskSpec, WorkloadSubmission, workload_submission}
use edge_orchestrator_ai.Orchestrator.OffloadCodec.{
  Serializer, task_of, add_specs, add_edges, add_all_edges, accepts, decode_submission,
}

elem_behind : (v w : TaskId) (vs : List TaskId) → elem v vs ≡ true → elem v (w ∷ vs) ≡ true
unfolding elem
elem_behind v w vs h = ground (arith, h)

-- The ids of a submission's tasks.
abbrev pub spec_ids : List TaskSpec → List TaskId
spec_ids specs = map (λ (spec : TaskSpec). spec.task_id) specs

abbrev pub Named : List TaskId → List TaskSpec → Type 0
Named ids [] = Unit {0}
Named ids (spec ∷ specs) =
    ((d : TaskId) → elem d spec.dependencies ≡ true → elem d ids ≡ true) × Named ids specs

abbrev pub Knows : WorkloadDag → TaskId → Type 0
Knows g v = elem v (keys g.tasks) ≡ true

add_task-Knows :
    (task : Task) (g : WorkloadDag) (v : TaskId)
    → (v ≡ task.id) ⊎ Knows g v
    → Knows (add_task task g) v
unfolding add_task
add_task-Knows task g v (inl e) =
    elem-keys-emplace task.id v task g.tasks ∙ if_pos (String_discrete v task.id) e true _
add_task-Knows task g v (inr h) = ground (arith, elem-keys-emplace task.id v task g.tasks, h)

add_specs-Knows :
    (specs : List TaskSpec) (g : WorkloadDag) (v : TaskId)
    → (elem v (spec_ids specs) ≡ true) ⊎ Knows g v
    → Knows (add_specs specs g) v
unfolding elem
add_specs-Knows [] g v (inl h) = cc
add_specs-Knows [] g v (inr h) = h
add_specs-Knows (spec ∷ specs) g v (inr h) =
    add_specs-Knows specs _ v (inr (add_task-Knows (task_of spec) g v (inr h)))
add_specs-Knows (spec ∷ specs) g v (inl h) = elim (String_discrete v spec.task_id) [
  | yes e ↦ add_specs-Knows specs _ v (inr (add_task-Knows (task_of spec) g v (inl e)))
  | no n ↦
      add_specs-Knows specs _ v (inl (sym (if_neg (String_discrete v spec.task_id) n true _) ∙ h))
]

pub record Good (ids : List TaskId) (g : WorkloadDag) : Type 0 where
  pub formed : IsWellFormed g
  pub closed : IsClosed g
  pub known : (v : TaskId) → elem v ids ≡ true → Knows g v

add_specs-Good :
    (specs : List TaskSpec) (g : WorkloadDag)
    → IsWellFormed g
    → IsClosed g
    → IsWellFormed (add_specs specs g) × IsClosed (add_specs specs g)
unfolding apply
add_specs-Good [] g formed closed = (formed, closed)
add_specs-Good (spec ∷ specs) g formed closed =
    add_specs-Good specs (add_task (task_of spec) g)
      (apply-IsWellFormed (adds_task (task_of spec)) g formed)
      (add_task-IsClosed (task_of spec) g closed)

add_dependency-Good :
    (ids : List TaskId) (from to : TaskId) (g : WorkloadDag)
    → elem from ids ≡ true
    → elem to ids ≡ true
    → Good ids g
    → Good ids (add_dependency from to g)
unfolding apply
add_dependency-Good ids from to g f t good = record {
  formed = apply-IsWellFormed (adds_dependency from to) g good.formed;
  closed = add_dependency-IsClosed from to g (good.known from f) (good.known to t) good.closed;
  known = λ v h. ap (elem v) (keys-add_dependency from to g) ∙ good.known v h;
}

add_edges-Good :
    (ids deps : List TaskId) (id : TaskId) (g : WorkloadDag)
    → ((d : TaskId) → elem d deps ≡ true → elem d ids ≡ true)
    → elem id ids ≡ true
    → Good ids g
    → Good ids (add_edges deps id g)
unfolding elem
add_edges-Good ids [] id g named here good = good
add_edges-Good ids (dep ∷ deps) id g named here good =
    add_edges-Good ids deps id (add_dependency dep id g) (λ d h. named d (elem_behind d dep deps h))
      here (add_dependency-Good ids dep id g (named dep (elem_self dep deps)) here good)

add_all_edges-Good :
    (ids : List TaskId) (specs : List TaskSpec) (g : WorkloadDag)
    → Named ids specs
    → ((v : TaskId) → elem v (spec_ids specs) ≡ true → elem v ids ≡ true)
    → Good ids g
    → Good ids (add_all_edges specs g)
unfolding elem
add_all_edges-Good ids [] g named within good = good
add_all_edges-Good ids (spec ∷ specs) g named within good =
    add_all_edges-Good ids specs (add_edges spec.dependencies spec.task_id g) named.1
      (λ v h. within v (elem_behind v spec.task_id (spec_ids specs) h))
      (add_edges-Good ids spec.dependencies spec.task_id g named.0
        (within spec.task_id (elem_self spec.task_id (spec_ids specs))) good)

pub decoded-Good :
    (specs : List TaskSpec)
    → Named (spec_ids specs) specs
    → Good (spec_ids specs) (add_all_edges specs (add_specs specs empty_dag))
decoded-Good specs named =
    add_all_edges-Good (spec_ids specs) specs (add_specs specs empty_dag) named (λ v h. h)
      (let (formed, closed) = add_specs-Good specs empty_dag empty-IsWellFormed empty-IsClosed in
        record {
          formed = formed;
          closed = closed;
          known = λ v h. add_specs-Knows specs empty_dag v (inl h);
        })

-- How often the specs give v the dependency u: the edges that they ask for from u to v.
abbrev pub asked : List TaskSpec → TaskId → TaskId → ℕ
asked [] u v = 0
asked (spec ∷ specs) u v =
    asked specs u v + ite (String_discrete v spec.task_id) (count u spec.dependencies) 0

-- How often the graph has the edge from u to v.
abbrev pub edges : WorkloadDag → TaskId → TaskId → ℕ
edges g u v = count v (find_or [] u g.adj_list)

edges-add_dependency :
    (from to u v : TaskId) (g : WorkloadDag)
    → edges (add_dependency from to g) u v
      ≡ edges g u v + ite (String_discrete u from) (ite (String_discrete v to) 1 0) 0
unfolding add_dependency count
edges-add_dependency from to u v g =
    rw (find_or-assign [] from u (find_or [] from g.adj_list ++ to ∷ []) g.adj_list)
      (elim (String_discrete u from) [
        | yes e ↦
            let same : edges g u v ≡ edges g from v = ap (λ w. edges g w v) e in
            ground (arith, same, count_snoc v to (find_or [] from g.adj_list))
        | no n ↦ ground arith
      ])

edges-add_edges :
    (deps : List TaskId) (id u v : TaskId) (g : WorkloadDag)
    → edges (add_edges deps id g) u v ≡ edges g u v + ite (String_discrete v id) (count u deps) 0
unfolding count
edges-add_edges [] id u v g = ground arith
edges-add_edges (dep ∷ deps) id u v g = ground (
  arith,
  edges-add_edges deps id u v (add_dependency dep id g),
  edges-add_dependency dep id u v g,
)

edges-add_all_edges :
    (specs : List TaskSpec) (u v : TaskId) (g : WorkloadDag)
    → edges (add_all_edges specs g) u v ≡ edges g u v + asked specs u v
edges-add_all_edges [] u v g = omega arith
edges-add_all_edges (spec ∷ specs) u v g = omega (
  arith,
  edges-add_all_edges specs u v (add_edges spec.dependencies spec.task_id g),
  edges-add_edges spec.dependencies spec.task_id u v g,
)

edges-add_specs :
    (specs : List TaskSpec) (u v : TaskId) (g : WorkloadDag)
    → edges (add_specs specs g) u v ≡ edges g u v
unfolding add_task
edges-add_specs [] u v g = refl
edges-add_specs (spec ∷ specs) u v g =
    edges-add_specs specs u v (add_task (task_of spec) g)
    ∙ ap (count v) (find_or-emplace [] spec.task_id u g.adj_list)

edges-decoded :
    (specs : List TaskSpec) (u v : TaskId)
    → edges (add_all_edges specs (add_specs specs empty_dag)) u v ≡ asked specs u v
unfolding count find_or
edges-decoded specs u v = omega (
  arith,
  edges-add_all_edges specs u v (add_specs specs empty_dag),
  edges-add_specs specs u v empty_dag,
)

-- The two tests together.
accepts_iff :
    (g : WorkloadDag)
    → IsClosed g
    → (accepts (is_valid g) (has_cycle g) ≡ some true) ↔ ((g.tasks ≢ []) × IsAcyclic g)
accepts_iff g closed = from (is_valid g) refl (has_cycle_decides g closed)
  where
    from :
        (valid : Option Bool)
        → is_valid g ≡ valid
        → ((has_cycle g ≡ some true) × ¬ IsAcyclic g) ⊎ ((has_cycle g ≡ some false) × IsAcyclic g)
        → (accepts valid (has_cycle g) ≡ some true) ↔ ((g.tasks ≢ []) × IsAcyclic g)
    from none e d =
        (λ h. absurd cc, λ x. absurd (let k = sym e ∙ (is_valid_iff g closed).1 x in cc))
    from (some true) e (inl (cycle, cyclic)) = absurd (cyclic ((is_valid_iff g closed).0 e).1)
    from (some true) e (inr (clear, acyclic)) =
        (λ h. (is_valid_iff g closed).0 e, λ x. ap (accepts (some true)) clear)
    from (some false) e d =
        (λ h. absurd cc, λ x. absurd (let k = sym e ∙ (is_valid_iff g closed).1 x in cc))

module _ {B N : Type 0} (wire : Serializer B N) where
  open wire use {parse}

  -- When the bytes parse as a submission in which every dependency names one of its tasks,
  -- decode_submission into a new graph returns its id and a well-formed, closed graph that has
  -- all of its tasks and, from each task to each other or itself, as many edges as the submission
  -- has dependencies of the latter on the former; and it accepts the graph exactly if it has a
  -- task and no cycle.
  pub decode_submission-accepts :
      (bytes : B) (sub : WorkloadSubmission) (before : String)
      → parse bytes ≡ some (workload_submission sub)
      → Named (spec_ids sub.tasks) sub.tasks
      → ((decode_submission wire bytes before empty_dag).1 ≡ sub.workload_id)
        × IsWellFormed (decode_submission wire bytes before empty_dag).2
        × IsClosed (decode_submission wire bytes before empty_dag).2
        × ((v : TaskId)
            → elem v (spec_ids sub.tasks) ≡ true
            → elem v (keys (decode_submission wire bytes before empty_dag).2.tasks) ≡ true)
        × ((u v : TaskId)
            → edges (decode_submission wire bytes before empty_dag).2 u v ≡ asked sub.tasks u v)
        × (((decode_submission wire bytes before empty_dag).0 ≡ some true) ↔ (
            ((decode_submission wire bytes before empty_dag).2.tasks ≢ [])
            × IsAcyclic (decode_submission wire bytes before empty_dag).2))
  unfolding decode_submission
  decode_submission-accepts bytes sub before e named =
      let good = decoded-Good sub.tasks named in
      rw e (
        refl,
        good.formed,
        good.closed,
        good.known,
        edges-decoded sub.tasks,
        accepts_iff _ good.closed,
      )
