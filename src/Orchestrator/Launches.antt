-- ===== src/Orchestrator/Launches.antt =====
-- A submission with any of the policies launches each task of the graph once.
use edge_orchestrator_ai.Prelude.{
  ◌+◌, ◌≤◌, ◌≡◌, refl, sym, ◌∙◌, ap, true, List, [], ◌∷◌, String, length, length-map, arith, ite,
  String_discrete, elem, count, string_key, elem_self, count-elem, elem-count, remove_one,
  count-remove_one, length-remove_one,
}
use edge_orchestrator_ai.Prelude.HashMap.{keys, find-present}
use edge_orchestrator_ai.Core.Floats.{Floats}
use edge_orchestrator_ai.Core.Result.{ok}
use edge_orchestrator_ai.Core.Types.{NodeId, TaskId, Timestamp, ResourceSnapshot}
use edge_orchestrator_ai.Workload.Dag.{WorkloadDag, get_task, task_count}
use edge_orchestrator_ai.Workload.Dag.Graph.{IsWellFormed, IsClosed, IsAcyclic}
use edge_orchestrator_ai.Workload.Dag.Iteration.{Iteration}
use edge_orchestrator_ai.Workload.Dag.Kahn.{topological_order}
use edge_orchestrator_ai.Workload.Dag.Kahn.Order.{order-tasks, IsAcyclic-iff_length}
use edge_orchestrator_ai.Scheduler.Plan.{ClusterView, SchedulingDecision, SchedulingPlan}
use edge_orchestrator_ai.Scheduler.Threshold.{ThresholdPolicyConfig}
use edge_orchestrator_ai.Scheduler.Threshold.Placement.{schedule-decides_order}
use edge_orchestrator_ai.Scheduler.Greedy.Placement.{schedule-assigns_order}
use edge_orchestrator_ai.Scheduler.Optimizer.{OptimizerPolicyConfig, Sorting, Random, decided}
use edge_orchestrator_ai.Scheduler.Optimizer.Decides.{schedule-decides_once}
use edge_orchestrator_ai.Network.ClusterView.{snapshot}
use edge_orchestrator_ai.Orchestrator.Messages.{OrchestrationResult}
use edge_orchestrator_ai.Orchestrator.OffloadCodec.{Serializer}
use edge_orchestrator_ai.Orchestrator.Offloading.{Orchestrator}
use edge_orchestrator_ai.Orchestrator.Policies.{SchedulingPolicy, create_policy}
use edge_orchestrator_ai.Orchestrator.Submission.{Course, submit_workload}
use edge_orchestrator_ai.Orchestrator.Counts.{placeable, has_task, submit_workload-counts}

-- A list in which nothing occurs more often is not longer.
count-length :
    (xs ys : List TaskId) → ((x : TaskId) → count x xs ≤ count x ys) → length xs ≤ length ys
unfolding count
count-length [] ys h = omega arith
count-length (x ∷ xs) ys h =
    omega (arith, length-remove_one x ys there, count-length xs (remove_one x ys) fewer)
  where
    once : 1 ≤ count x ys
    once = omega (arith, h x, elem-count x (x ∷ xs) (elem_self x xs))

    there : elem x ys ≡ true
    there = count-elem x ys once

    fewer : (z : TaskId) → count z xs ≤ count z (remove_one x ys)
    fewer z = ground (arith, count-remove_one z x ys, h z)

placeable-all :
    (g : WorkloadDag) (ds : List SchedulingDecision)
    → ((id : TaskId) → elem id (decided ds) ≡ true → elem id (keys g.tasks) ≡ true)
    → placeable g ds ≡ length ds
unfolding get_task elem
placeable-all g [] known = refl
placeable-all g (d ∷ ds) known =
    let (task, at) =
      find-present d.task_id g.tasks (known d.task_id (elem_self d.task_id (decided ds))) in
    let rest = placeable-all g ds (λ id m. known id (ground (arith, m))) in
    let one : has_task (get_task d.task_id g) ≡ 1 = ap has_task at in omega (arith, one, rest)

either {ℓ κ ι} :
    {X : Type ℓ} {A : Type κ} (P : A → Type ι) (d : Dec X) {a b : A} → P a → P b → P (ite d a b)
either P (yes x) p q = p
either P (no n) p q = q

module _ (f : Floats) (sorting : Sorting) (random : Random) (it : Iteration) (g : WorkloadDag)
    (wf : IsWellFormed g) (closed : IsClosed g) (name : String)
    (threshold : ThresholdPolicyConfig f.Float) (optimizer : OptimizerPolicyConfig f.Float) where
  abbrev pub policy : SchedulingPolicy f.Float
  policy = create_policy f sorting random it name threshold optimizer

  -- Whatever the policy's name.
  create_policy-decides :
      (local : ResourceSnapshot f.Float) (cluster : ClusterView f.Float) (now : Timestamp)
      (id : TaskId)
      → count id (decided (policy g local cluster now).decisions)
        ≡ count id (topological_order it g)
  unfolding create_policy
  create_policy-decides local cluster now id =
      either decides (String_discrete name "threshold")
        (ap (count id) (schedule-decides_order f threshold local cluster it g now wf closed))
        (either decides (String_discrete name "optimizer")
          (schedule-decides_once sorting it g wf closed f optimizer random local cluster now id)
          (ap (count id) (schedule-assigns_order f local cluster it g now wf closed)))
    where
      decides : SchedulingPolicy f.Float → Type 0
      decides p =
          count id (decided (p g local cluster now).decisions) ≡ count id (topological_order it g)

  decisions-placeable :
      IsAcyclic g
      → (local : ResourceSnapshot f.Float) (cluster : ClusterView f.Float) (now : Timestamp)
      → placeable g (policy g local cluster now).decisions ≡ task_count g
  decisions-placeable acyclic local cluster now =
      placeable-all g ds known
      ∙ sym (length-map (λ (d : SchedulingDecision). d.task_id) ds)
      ∙ omega (
        arith,
        count-length (decided ds) order (λ id. omega (arith, same id)),
        count-length order (decided ds) (λ id. omega (arith, same id)),
      )
      ∙ (IsAcyclic-iff_length it g wf closed).0 acyclic
    where
      ds : List SchedulingDecision
      ds = (policy g local cluster now).decisions

      order : List TaskId
      order = topological_order it g

      same : (id : TaskId) → count id (decided ds) ≡ count id order
      same id = create_policy-decides local cluster now id

      known : (id : TaskId) → elem id (decided ds) ≡ true → elem id (keys g.tasks) ≡ true
      known id m =
          order-tasks it g wf closed id
            (count-elem id order (omega (arith, same id, elem-count id (decided ds) m)))

  module _ {B N : Type 0} (wire : Serializer B N) (concat : String → String → String) where
    pub submit_workload-launches_all :
        (node : NodeId) (local : ResourceSnapshot f.Float) (c : Course B) (s : Orchestrator f.Float)
        → IsAcyclic g
        → (r : OrchestrationResult) × ((submit_workload wire concat node policy (ok local) g c s).0
            ≡ ok r)
          × (r.local_tasks + r.offloaded_tasks ≡ task_count g)
    submit_workload-launches_all node local c s acyclic =
        let (r, is, plan, all, _, _, _) =
          submit_workload-counts wire concat node policy local g c s in
        (
          r,
          is,
          all
              ∙ ap (λ (p : SchedulingPlan). placeable g p.decisions) plan
              ∙ decisions-placeable acyclic local (snapshot s.peers) c.now,
        )
