-- ===== src/Workload/Dag/Ready.antt =====
-- Which tasks ready_tasks returns.
use edge_orchestrator_ai.Prelude.{
  ◌≡◌, refl, sym, ◌∙◌, inl, inr, ◌↔◌, true, List, [], ◌∷◌, some, if_pos, if_neg, elem, elem-count,
  count-elem, Distinct, string_key, String_discrete, arith, Option-cases, some_eq, elem_self,
}
use edge_orchestrator_ai.Prelude.HashMap.{find, find_or, keys}
use edge_orchestrator_ai.Core.Types.{
  TaskId, TaskState, pending, ready, scheduled, running, completed, failed,
}
use edge_orchestrator_ai.Workload.Dag.{
  Task, WorkloadDag, is_pending, is_completed, deps_met, ready_from, ready_tasks,
}
use edge_orchestrator_ai.Workload.Dag.Graph.{IsWellFormed}
use edge_orchestrator_ai.Workload.Dag.Kahn.Pending.{Edge}

is_completed_iff : (s : TaskState) → (is_completed s ≡ true) ↔ (s ≡ completed)
is_completed_iff pending = (λ e. cc, λ e. cc)
is_completed_iff ready = (λ e. cc, λ e. cc)
is_completed_iff scheduled = (λ e. cc, λ e. cc)
is_completed_iff running = (λ e. cc, λ e. cc)
is_completed_iff completed = (λ e. refl, λ e. refl)
is_completed_iff failed = (λ e. cc, λ e. cc)

is_pending_iff : (s : TaskState) → (is_pending s ≡ true) ↔ (s ≡ pending)
is_pending_iff pending = (λ e. refl, λ e. refl)
is_pending_iff ready = (λ e. cc, λ e. cc)
is_pending_iff scheduled = (λ e. cc, λ e. cc)
is_pending_iff running = (λ e. cc, λ e. cc)
is_pending_iff completed = (λ e. cc, λ e. cc)
is_pending_iff failed = (λ e. cc, λ e. cc)

deps_met-completed :
    (tasks : List (TaskId × Task)) (ids : List TaskId) (u : TaskId) (dep : Task)
    → deps_met tasks ids ≡ true
    → elem u ids ≡ true
    → find u tasks ≡ some dep
    → dep.state ≡ completed
unfolding deps_met elem
deps_met-completed tasks [] u dep met m at = cc
deps_met-completed tasks (d ∷ ids) u dep met m at =
    let completes = is_completed_iff dep.state in ground (arith, deps_met-completed tasks ids u dep)

completed-deps_met :
    (tasks : List (TaskId × Task)) (ids : List TaskId)
    → ((u : TaskId) (dep : Task)
        → elem u ids ≡ true
        → find u tasks ≡ some dep
        → dep.state ≡ completed)
    → deps_met tasks ids ≡ true
unfolding deps_met elem
completed-deps_met tasks [] all = refl
completed-deps_met tasks (d ∷ ids) all =
    let rest = completed-deps_met tasks ids (λ u dep m at. all u dep (ground arith) at) in
    elim (Option-cases (find d tasks)) [
      | inl absent ↦ rw (absent, deps_met) rest
      | inr (dep, at) ↦
          let done = (is_completed_iff dep.state).1 (all d dep (elem_self d ids) at) in
          rw (at, done, deps_met) rest
    ]

-- What makes a task ready: it is pending, and the tasks it depends on are completed.
abbrev pub IsReady : WorkloadDag → List (TaskId × Task) → TaskId → Type 0
IsReady g tasks x =
    (task : Task) × (find x tasks ≡ some task)
    × (task.state ≡ pending)
    × (deps_met g.tasks (find_or [] x g.reverse_adj) ≡ true)

elem-ready_from-elem :
    (g : WorkloadDag) (tasks : List (TaskId × Task)) (x : TaskId)
    → elem x (ready_from g tasks) ≡ true
    → elem x (keys tasks) ≡ true
unfolding ready_from elem
elem-ready_from-elem g [] x m = m
elem-ready_from-elem g ((id, task) ∷ rest) x m = ground (arith, elem-ready_from-elem g rest x)

ready_from_iff :
    (g : WorkloadDag) (tasks : List (TaskId × Task)) (x : TaskId)
    → Distinct (keys tasks)
    → (elem x (ready_from g tasks) ≡ true) ↔ IsReady g tasks x
unfolding ready_from elem find
ready_from_iff g [] x d = (λ m. cc, λ h. cc)
ready_from_iff g ((id, task) ∷ rest) x d =
    let here = is_pending_iff task.state in
    let below = ready_from_iff g rest x d.1 in
    let absent = elem-ready_from-elem g rest x in
    elim (String_discrete x id) [
      | yes same ↦ (
        λ m. (task, if_pos (String_discrete x id) same _ _, ground arith, ground arith),
        λ h.
            let (t, at, waits, met) = h in
            let found : task ≡ t = some_eq (sym (if_pos (String_discrete x id) same _ _) ∙ at) in
            let waits' : task.state ≡ pending = rw found waits in ground arith,
      )
      | no other ↦ (
        λ m.
            let (t, at, waits, met) = below.0 (ground arith) in
            (t, if_neg (String_discrete x id) other _ _ ∙ at, waits, met),
        λ h.
            let (t, at, waits, met) = h in
            let there = sym (if_neg (String_discrete x id) other _ _) ∙ at in
            let m = below.1 (t, there, waits, met) in ground arith,
      )
    ]

-- In a well-formed graph, ready_tasks holds an id exactly when it is the id of a pending task,
-- and each task with an edge to it is completed.
pub ready_tasks_iff :
    (g : WorkloadDag) (x : TaskId)
    → IsWellFormed g
    → (elem x (ready_tasks g) ≡ true) ↔ (
        (task : Task) × (find x g.tasks ≡ some task)
        × (task.state ≡ pending)
        × ((u : TaskId) (dep : Task)
            → Edge g.adj_list u x
            → find u g.tasks ≡ some dep
            → dep.state ≡ completed))
unfolding ready_tasks
ready_tasks_iff g x wf = (
  λ m.
      let (task, at, waits, met) = (ready_from_iff g g.tasks x wf.tasks_distinct).0 m in
      (
        task,
        at,
        waits,
        λ u dep e there.
            deps_met-completed g.tasks (find_or [] x g.reverse_adj) u dep met (backward u e) there,
      ),
  λ h.
      let (task, at, waits, done) = h in
      (ready_from_iff g g.tasks x wf.tasks_distinct).1 (
        task,
        at,
        waits,
        completed-deps_met g.tasks (find_or [] x g.reverse_adj)
            (λ u dep e there. done u dep (forward u e) there),
      ),
)
  where
    backward : (u : TaskId) → Edge g.adj_list u x → elem u (find_or [] x g.reverse_adj) ≡ true
    backward u e = count-elem u _ (omega (arith, wf.mirrored u x, elem-count x _ e))

    forward : (u : TaskId) → elem u (find_or [] x g.reverse_adj) ≡ true → Edge g.adj_list u x
    forward u e = count-elem x _ (omega (arith, wf.mirrored u x, elem-count u _ e))
