-- ===== src/Scheduler/Rounds.antt =====
-- The loop of a policy over the tasks in topological order: a task that the graph does not hold is
-- passed over.
use edge_orchestrator_ai.Prelude.{
  ◌≡◌, refl, sym, ap, ◌∙◌, true, List, [], ◌∷◌, ◌++◌, Option, none, some, string_key, elem,
  append_assoc, append-nil, arith,
}
use edge_orchestrator_ai.Prelude.HashMap.{keys, find-present}
use edge_orchestrator_ai.Core.Types.{TaskId}
use edge_orchestrator_ai.Workload.Dag.{Task, WorkloadDag, get_task}

module _ {S : Type 0} (g : WorkloadDag) (assign_task : TaskId → Task → S → S) where
  abbrev pub round : TaskId → S → Option Task → S
  round id s none = s
  round id s (some task) = assign_task id task s

  unfoldable pub each_task : List TaskId → S → S
  each_task [] s = s
  each_task (id ∷ ids) s = each_task ids (round id s (get_task id g))

  -- What each assignment keeps, the loop keeps.
  pub each_task-keeps {ℓ} :
      (P : S → Type ℓ)
      → ((id : TaskId) (task : Task) (s : S)
          → get_task id g ≡ some task
          → P s
          → P (assign_task id task s))
      → (ids : List TaskId) (s : S) → P s
      → P (each_task ids s)
  unfolding each_task
  each_task-keeps P keeps [] s h = h
  each_task-keeps P keeps (id ∷ ids) s h = each_task-keeps P keeps ids _ (kept _ refl)
    where
      kept : (o : Option Task) → get_task id g ≡ o → P (round id s o)
      kept none e = h
      kept (some task) e = keeps id task s e h

  -- When each assignment keeps P and notes its task last, the loop notes the tasks in its order.
  pub each_task-notes :
      (P : S → Type 0)
      → ((id : TaskId) (task : Task) (s : S) → P s → P (assign_task id task s))
      → (noted : S → List TaskId)
      → ((id : TaskId) (task : Task) (s : S)
          → P s
          → noted (assign_task id task s) ≡ noted s ++ id ∷ [])
      → (ids : List TaskId) (s : S) → P s
      → ((id : TaskId) → elem id ids ≡ true → elem id (keys g.tasks) ≡ true)
      → noted (each_task ids s) ≡ noted s ++ ids
  unfolding each_task get_task elem
  each_task-notes P keeps noted notes [] s h known = sym (append-nil (noted s))
  each_task-notes P keeps noted notes (id ∷ ids) s h known =
      let (task, at) = find-present id g.tasks (known id (ground arith)) in
      rw at (
        each_task-notes P keeps noted notes ids (assign_task id task s) (keeps id task s h)
          (λ x m. known x (ground arith))
        ∙ ap (λ l. l ++ ids) (notes id task s h)
        ∙ append_assoc (noted s) (id ∷ []) ids)
