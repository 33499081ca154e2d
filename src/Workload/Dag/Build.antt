-- ===== src/Workload/Dag/Build.antt =====
-- The operations of WorkloadDAG keep its three maps in step.
use edge_orchestrator_ai.Prelude.{
  ◌≡◌, refl, inl, inr, true, List, [], ◌∷◌, ◌++◌, some, string_key, elem, count, arith, count_snoc,
  elem_snoc, Option-cases,
}
use edge_orchestrator_ai.Prelude.HashMap.{
  find, find_or, update, keys, find-emplace, find_or-emplace, find-update, keys-update,
  find_or-assign, elem-keys-emplace, Distinct-keys-emplace, Distinct-keys-assign,
}
use edge_orchestrator_ai.Core.Types.{TaskId, TaskState, completed, failed, running, scheduled}
use edge_orchestrator_ai.Workload.Dag.{
  Task, WorkloadDag, empty_dag, add_task, add_dependency, push_back_at, note_dependency, set_state,
  mark_completed, mark_failed, mark_running, mark_scheduled,
}
use edge_orchestrator_ai.Workload.Dag.Graph.{IsWellFormed, IsClosed}
use edge_orchestrator_ai.Workload.Dag.Kahn.Pending.{Edge}

pub empty-IsWellFormed : IsWellFormed empty_dag
unfolding find find_or count
empty-IsWellFormed = record {
  tasks_distinct = tt;
  adj_distinct = tt;
  reverse_distinct = tt;
  named = λ id task e. cc;
  mirrored = λ u v. refl;
}

add_task-IsWellFormed :
    (task : Task) (g : WorkloadDag) → IsWellFormed g → IsWellFormed (add_task task g)
unfolding add_task
add_task-IsWellFormed task g wf = record {
  tasks_distinct = Distinct-keys-emplace task.id task g.tasks wf.tasks_distinct;
  adj_distinct = Distinct-keys-emplace task.id [] g.adj_list wf.adj_distinct;
  reverse_distinct = Distinct-keys-emplace task.id [] g.reverse_adj wf.reverse_distinct;
  named = λ id t e. ground (arith, find-emplace task.id id task g.tasks, wf.named id t);
  mirrored = λ u v. ground (
    arith,
    find_or-emplace [] task.id u g.adj_list,
    find_or-emplace [] task.id v g.reverse_adj,
    wf.mirrored u v,
  );
}

note_dependency-id : (from : TaskId) (task : Task) → (note_dependency from task).id ≡ task.id
unfolding note_dependency
note_dependency-id from task = ground arith

-- A write to one task that keeps its id.
update-named :
    (x : TaskId) (f : Task → Task) (tasks : List (TaskId × Task))
    → ((task : Task) → (f task).id ≡ task.id)
    → ((id : TaskId) (task : Task) → find id tasks ≡ some task → task.id ≡ id)
    → (id : TaskId) (task : Task) → find id (update x f tasks) ≡ some task
    → task.id ≡ id
update-named x f tasks keeps named id task e = elim (Option-cases (find id tasks)) [
  | inl absent ↦ ground (arith, find-update x id f tasks)
  | inr (w, at) ↦ ground (arith, find-update x id f tasks, keeps w, named id w at)
]

add_dependency-IsWellFormed :
    (from to : TaskId) (g : WorkloadDag) → IsWellFormed g → IsWellFormed (add_dependency from to g)
unfolding add_dependency count
add_dependency-IsWellFormed from to g wf = record {
  tasks_distinct = rw (keys-update to (note_dependency from) g.tasks) wf.tasks_distinct;
  adj_distinct = Distinct-keys-assign from _ g.adj_list wf.adj_distinct;
  reverse_distinct = Distinct-keys-assign to _ g.reverse_adj wf.reverse_distinct;
  named = update-named to (note_dependency from) g.tasks (note_dependency-id from) wf.named;
  mirrored = λ u v. ground (
    arith,
    find_or-assign [] from u (find_or [] from g.adj_list ++ to ∷ []) g.adj_list,
    find_or-assign [] to v (find_or [] to g.reverse_adj ++ from ∷ []) g.reverse_adj,
    count_snoc v to (find_or [] from g.adj_list),
    count_snoc u from (find_or [] to g.reverse_adj),
    wf.mirrored u v,
  );
}

set_state-IsWellFormed :
    (s : TaskState) (id : TaskId) (g : WorkloadDag)
    → IsWellFormed g
    → IsWellFormed (set_state s id g)
unfolding set_state
set_state-IsWellFormed s id g wf = record {
  tasks_distinct =
      rw (keys-update id (λ task. record task { state = s }) g.tasks) wf.tasks_distinct;
  adj_distinct = wf.adj_distinct;
  reverse_distinct = wf.reverse_distinct;
  named = update-named id (λ task. record task { state = s }) g.tasks (λ task. refl) wf.named;
  mirrored = wf.mirrored;
}

-- The public operations that change a WorkloadDAG.
pub data Operation : Type 0 where
  adds_task : Task → Operation
  adds_dependency : (from to : TaskId) → Operation
  marks_completed marks_failed marks_running marks_scheduled : TaskId → Operation

unfoldable pub apply : Operation → WorkloadDag → WorkloadDag
apply (adds_task task) = add_task task
apply (adds_dependency from to) = add_dependency from to
apply (marks_completed id) = mark_completed id
apply (marks_failed id) = mark_failed id
apply (marks_running id) = mark_running id
apply (marks_scheduled id) = mark_scheduled id

-- The graph that a sequence of operations builds from the empty one.
unfoldable pub build : List Operation → WorkloadDag → WorkloadDag
build [] g = g
build (op ∷ ops) g = build ops (apply op g)

pub apply-IsWellFormed :
    (op : Operation) (g : WorkloadDag) → IsWellFormed g → IsWellFormed (apply op g)
unfolding apply mark_completed mark_failed mark_running mark_scheduled
apply-IsWellFormed (adds_task task) g wf = add_task-IsWellFormed task g wf
apply-IsWellFormed (adds_dependency from to) g wf = add_dependency-IsWellFormed from to g wf
apply-IsWellFormed (marks_completed id) g wf = set_state-IsWellFormed completed id g wf
apply-IsWellFormed (marks_failed id) g wf = set_state-IsWellFormed failed id g wf
apply-IsWellFormed (marks_running id) g wf = set_state-IsWellFormed running id g wf
apply-IsWellFormed (marks_scheduled id) g wf = set_state-IsWellFormed scheduled id g wf

build-keeps : (ops : List Operation) (g : WorkloadDag) → IsWellFormed g → IsWellFormed (build ops g)
unfolding build
build-keeps [] g wf = wf
build-keeps (op ∷ ops) g wf = build-keeps ops (apply op g) (apply-IsWellFormed op g wf)

-- Whatever sequence of its operations is applied to the empty graph, the keys of the three maps
-- are distinct, each task is stored under its own id, and the reverse lists hold each edge as
-- often as the forward lists do.
pub build-IsWellFormed : (ops : List Operation) → IsWellFormed (build ops empty_dag)
build-IsWellFormed ops = build-keeps ops empty_dag empty-IsWellFormed

pub empty-IsClosed : IsClosed empty_dag
unfolding elem find_or
empty-IsClosed = record { source = λ u v e. cc; target = λ u v e. cc }

pub add_task-IsClosed : (task : Task) (g : WorkloadDag) → IsClosed g → IsClosed (add_task task g)
unfolding add_task
add_task-IsClosed task g closed = record {
  source = λ u v e. ground (
    arith,
    find_or-emplace [] task.id u g.adj_list,
    elem-keys-emplace task.id u task g.tasks,
    closed.source u v,
  );
  target = λ u v e. ground (
    arith,
    find_or-emplace [] task.id u g.adj_list,
    elem-keys-emplace task.id v task g.tasks,
    closed.target u v,
  );
}

-- An edge between two tasks keeps the graph closed.
pub add_dependency-IsClosed :
    (from to : TaskId) (g : WorkloadDag)
    → elem from (keys g.tasks) ≡ true
    → elem to (keys g.tasks) ≡ true
    → IsClosed g
    → IsClosed (add_dependency from to g)
unfolding add_dependency elem
add_dependency-IsClosed from to g known_from known_to closed = record {
  source = λ u v e. rw (keys-update to (note_dependency from) g.tasks) (by_edge u v e).0;
  target = λ u v e. rw (keys-update to (note_dependency from) g.tasks) (by_edge u v e).1;
}
  where
    by_edge :
        (u v : TaskId)
        → Edge (push_back_at from to g.adj_list) u v
        → (elem u (keys g.tasks) ≡ true) × (elem v (keys g.tasks) ≡ true)
    by_edge u v e = ground (
      arith,
      find_or-assign [] from u (find_or [] from g.adj_list ++ to ∷ []) g.adj_list,
      elem_snoc v to (find_or [] from g.adj_list),
      closed.source u v,
      closed.target u v,
    )

-- An edge adds no task.
pub keys-add_dependency :
    (from to : TaskId) (g : WorkloadDag) → keys (add_dependency from to g).tasks ≡ keys g.tasks
unfolding add_dependency
keys-add_dependency from to g = keys-update to (note_dependency from) g.tasks
