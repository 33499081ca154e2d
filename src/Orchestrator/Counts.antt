-- ===== src/Orchestrator/Counts.antt =====
-- The counts of a submission.
use edge_orchestrator_ai.Prelude.{
  ℕ, zero, suc, ◌+◌, ◌-◌, ◌≤◌, ◌<◌, ◌≡◌, refl, sym, ap, subst, Bool, true, false, List, [], ◌∷◌,
  ◌++◌, Option, none, some, String, length, length-append, arith, ltb, if◌then◌else◌, ite,
  String_discrete, one_if,
}
use edge_orchestrator_ai.Core.Result.{ok}
use edge_orchestrator_ai.Core.Types.{NodeId, ResourceSnapshot}
use edge_orchestrator_ai.Workload.Dag.{Task, WorkloadDag, get_task}
use edge_orchestrator_ai.Scheduler.Plan.{SchedulingDecision}
use edge_orchestrator_ai.Network.ClusterView.{snapshot}
use edge_orchestrator_ai.Orchestrator.Messages.{OrchestrationResult}
use edge_orchestrator_ai.Orchestrator.OffloadCodec.{Serializer}
use edge_orchestrator_ai.Orchestrator.Offloading.{Orchestrator, RemoteOutcome, offload_to_peer}
use edge_orchestrator_ai.Orchestrator.Policies.{SchedulingPolicy}
use edge_orchestrator_ai.Orchestrator.Workloads.{
  Job, runs_here, offloads, Launch, Tally, World, launch, launch_job, launch_decision, counted,
  after_offload, take_job, run_job, begun_after_offload, begin_job, go_on, job_taken, run_jobs,
}
use edge_orchestrator_ai.Orchestrator.Submission.{Course, launched, no_tally, submit_workload}

abbrev pub is_offload : Job → ℕ
is_offload (runs_here id profile) = 0
is_offload (offloads id profile target) = 1

abbrev pub offload_jobs : List Job → ℕ
offload_jobs [] = 0
offload_jobs (job ∷ jobs) = is_offload job + offload_jobs jobs

abbrev pub has_task : Option Task → ℕ
has_task none = 0
has_task (some task) = 1

-- The decisions whose task is in the graph.
abbrev pub placeable : WorkloadDag → List SchedulingDecision → ℕ
placeable g [] = 0
placeable g (d ∷ ds) = has_task (get_task d.task_id g) + placeable g ds

-- How many jobs end, of so many that are left.
abbrev pub ended_jobs : {B : Type 0} → List (ℕ × Bool × World B) → ℕ → ℕ
ended_jobs [] left = 0
ended_jobs ((n, ended, w) ∷ begun) left =
    if ltb n left then one_if ended + ended_jobs begun (left - 1) else ended_jobs begun left

one_if-le : (b : Bool) → one_if b ≤ 1
one_if-le true = omega arith
one_if-le false = omega arith

ended_jobs-le :
    {B : Type 0} (begun : List (ℕ × Bool × World B)) (left : ℕ) → ended_jobs begun left ≤ left
ended_jobs-le [] left = omega arith
ended_jobs-le ((n, ended, w) ∷ begun) left =
    ground (arith, ended_jobs-le begun (left - 1), ended_jobs-le begun left, one_if-le ended)

offload_jobs-append :
    (xs ys : List Job) → offload_jobs (xs ++ ys) ≡ offload_jobs xs + offload_jobs ys
offload_jobs-append [] ys = omega arith
offload_jobs-append (x ∷ xs) ys = omega (arith, offload_jobs-append xs ys)

module _ {F : Type 0} where
  record Balanced (l : Launch F) : Type 0 where
    jobs : length l.jobs ≡ l.local_tasks + l.offloaded_tasks
    remote : offload_jobs l.jobs ≡ l.offloaded_tasks

  launch_job-Balanced :
      (here : Bool) (d : SchedulingDecision) (task : Task) (l : Launch F)
      → Balanced l
      → Balanced (launch_job here d task l)
  launch_job-Balanced true d task l b = record {
    jobs = omega (arith, b.jobs, length-append l.jobs (runs_here d.task_id task.profile ∷ []));
    remote =
        omega (arith, b.remote, offload_jobs-append l.jobs (runs_here d.task_id task.profile ∷ []));
  }
  launch_job-Balanced false d task l b = record {
    jobs = omega (
      arith,
      b.jobs,
      length-append l.jobs (offloads d.task_id task.profile d.assigned_node ∷ []),
    );
    remote = omega (
      arith,
      b.remote,
      offload_jobs-append l.jobs (offloads d.task_id task.profile d.assigned_node ∷ []),
    );
  }

  launch_job-one :
      (here : Bool) (d : SchedulingDecision) (task : Task) (l : Launch F)
      → (launch_job here d task l).local_tasks + (launch_job here d task l).offloaded_tasks
        ≡ l.local_tasks + l.offloaded_tasks + 1
  launch_job-one true d task l = omega arith
  launch_job-one false d task l = omega arith

  launch-placeable :
      (node : NodeId) (g : WorkloadDag) (ds : List SchedulingDecision) (l : Launch F)
      → Balanced l
      → Balanced (launch node g ds l)
        × ((launch node g ds l).local_tasks + (launch node g ds l).offloaded_tasks
            ≡ l.local_tasks + l.offloaded_tasks + placeable g ds)
  unfolding launch
  launch-placeable node g [] l b = (b, omega arith)
  launch-placeable node g (d ∷ ds) l b =
      from (get_task d.task_id g) (λ l' b'. launch-placeable node g ds l' b')
    where
      from :
          (o : Option Task)
          → ((l' : Launch F)
              → Balanced l'
              → Balanced (launch node g ds l')
                × ((launch node g ds l').local_tasks + (launch node g ds l').offloaded_tasks
                    ≡ l'.local_tasks + l'.offloaded_tasks + placeable g ds))
          → Balanced (launch node g ds (launch_decision node d o l))
            × ((launch node g ds (launch_decision node d o l)).local_tasks
                  + (launch node g ds (launch_decision node d o l)).offloaded_tasks
                ≡ l.local_tasks + l.offloaded_tasks + (has_task o + placeable g ds))
      from none rest = let (b', e) = rest l b in (b', omega (arith, e))
      from (some task) rest =
          let here = ite (String_discrete d.assigned_node node) true false in
          let (b', e) = rest (launch_job here d task l) (launch_job-Balanced here d task l b) in
          (b', omega (arith, e, launch_job-one here d task l))

data Picked (n : ℕ) (jobs : List Job) : Type 0 where
  out_of_range : take_job n jobs ≡ none → length jobs ≤ n → Picked n jobs
  picks :
      (job : Job) (left : List Job)
      → take_job n jobs ≡ some (job, left)
      → n < length jobs
      → length jobs ≡ suc (length left)
      → offload_jobs jobs ≡ is_offload job + offload_jobs left
      → Picked n jobs

take_job-Picked : (n : ℕ) (jobs : List Job) → Picked n jobs
unfolding take_job
take_job-Picked n [] = out_of_range refl (omega arith)
take_job-Picked zero (job ∷ jobs) = picks job jobs refl (omega arith) refl refl
take_job-Picked (suc n) (job ∷ jobs) = elim (take_job-Picked n jobs) [
  | out_of_range e h ↦ out_of_range (rw e refl) (omega (arith, h))
  | picks j left e h k o ↦
      picks j (job ∷ left) (rw e refl) (omega (arith, h)) (omega (arith, k)) (omega (arith, o))
]

-- What one job adds to the counters, which has ended or only begun.
record Adds (ended : Bool) (t t' : Tally) (weight : ℕ) : Type 0 where
  counts_end :
      t'.completed_tasks + t'.failed_tasks ≡ one_if ended + (t.completed_tasks + t.failed_tasks)
  fell_back : t'.fallbacks ≤ t.fallbacks + weight

counted-Adds :
    (b : Bool) (t u : Tally) (w : ℕ)
    → t.completed_tasks ≡ u.completed_tasks
    → t.failed_tasks ≡ u.failed_tasks
    → t.fallbacks ≤ u.fallbacks + w
    → Adds true u (counted b t) w
counted-Adds true t u w c f l = record { counts_end = omega (arith, c, f); fell_back = l }
counted-Adds false t u w c f l = record { counts_end = omega (arith, c, f); fell_back = l }

record Ran {B : Type 0} (begun : List (ℕ × Bool × World B)) (jobs : List Job) (t t' : Tally)
    : Type 0 where
  all_ended :
      t'.completed_tasks + t'.failed_tasks
      ≡ t.completed_tasks + t.failed_tasks + ended_jobs begun (length jobs)
  fell_back : t'.fallbacks ≤ t.fallbacks + offload_jobs jobs

module _ {B N F : Type 0} (wire : Serializer B N) (concat : String → String → String) where
  run_job-Adds :
      (job : Job) (w : World B) (t : Tally) (s : Orchestrator F)
      → Adds true t (run_job wire concat job w t s).0 (is_offload job)
  unfolding run_job
  run_job-Adds (runs_here id profile) w t s = counted-Adds _ t t 0 refl refl (omega arith)
  run_job-Adds (offloads id profile target) w t s =
      from (offload_to_peer wire concat id profile target w.client s)
    where
      by_transport :
          (b : Bool) (o : RemoteOutcome)
          → Adds true t (after_offload b id profile target o w.surroundings t s).0 1
      by_transport true o = counted-Adds o.task_ok t t 1 refl refl (omega arith)
      by_transport false o =
          counted-Adds _ (record t { fallbacks = t.fallbacks + 1 }) t 1 refl refl (omega arith)

      from :
          (o : RemoteOutcome)
          → Adds true t (after_offload o.transport_ok id profile target o w.surroundings t s).0 1
      from o = by_transport o.transport_ok o

  begin_job-Adds :
      (job : Job) (w : World B) (t : Tally) (s : Orchestrator F)
      → Adds false t (begin_job wire concat job w t s).0 (is_offload job)
  unfolding begin_job
  begin_job-Adds (runs_here id profile) w t s = record {
    counts_end = omega arith;
    fell_back = omega arith;
  }
  begin_job-Adds (offloads id profile target) w t s =
      from (offload_to_peer wire concat id profile target w.client s).transport_ok
    where
      from :
          (b : Bool)
          → Adds false t
              (begun_after_offload wire concat b id profile target w.surroundings t s).0
              1
      from true = record { counts_end = omega arith; fell_back = omega arith }
      from false = record { counts_end = omega arith; fell_back = omega arith }

  go_on-Adds :
      (ended : Bool) (job : Job) (w : World B) (t : Tally) (s : Orchestrator F)
      → Adds ended t (go_on wire concat ended job w t s).0 (is_offload job)
  go_on-Adds true job w t s = run_job-Adds job w t s
  go_on-Adds false job w t s = begin_job-Adds job w t s

  run_jobs-Ran :
      (begun : List (ℕ × Bool × World B)) (jobs : List Job) (t : Tally) (s : Orchestrator F)
      → Ran begun jobs t (run_jobs wire concat begun jobs t s).0
  unfolding run_jobs
  run_jobs-Ran [] jobs t s = record { all_ended = omega arith; fell_back = omega arith }
  run_jobs-Ran ((n, ended, w) ∷ begun) jobs t s =
      from (take_job-Picked n jobs) (λ jobs' t' s'. run_jobs-Ran begun jobs' t' s')
    where
      after : Option (Job × List Job) → Tally
      after o =
          let (jobs', t', s') = job_taken wire concat o ended w jobs t s in
          (run_jobs wire concat begun jobs' t' s').0

      from :
          Picked n jobs
          → ((jobs' : List Job) (t' : Tally) (s' : Orchestrator F)
              → Ran begun jobs' t' (run_jobs wire concat begun jobs' t' s').0)
          → Ran ((n, ended, w) ∷ begun) jobs t (after (take_job n jobs))
      from (out_of_range e h) ih =
          subst (λ o. Ran ((n, ended, w) ∷ begun) jobs t (after o)) (sym e)
            (let rest = ih jobs t s in
              record { all_ended = ground (arith, rest.all_ended, h); fell_back = rest.fell_back })
      from (picks job left e h k o) ih =
          subst (λ o'. Ran ((n, ended, w) ∷ begun) jobs t (after o')) (sym e)
            (let ran = go_on wire concat ended job w t s in
              let one = go_on-Adds ended job w t s in
              let rest = ih left ran.0 ran.1 in
              let same_left : ended_jobs begun (length jobs - 1) ≡ ended_jobs begun (length left) =
                ap (ended_jobs begun) (omega (arith, k)) in
              record {
                all_ended = ground (arith, rest.all_ended, one.counts_end, k, same_left, h);
                fell_back = omega (arith, rest.fell_back, one.fell_back, o);
              })

  -- With a snapshot of the resources, submit_workload returns a result with the policy's plan, in
  -- which the local and the offloaded tasks are as many as the plan's decisions that name a task
  -- of the graph; the completed and the failed ones are as many as the jobs that end while it
  -- waits, so at most the former; and at most each offloaded task fell back.
  pub submit_workload-counts :
      (node : NodeId) (policy : SchedulingPolicy F) (local : ResourceSnapshot F) (g : WorkloadDag)
      (c : Course B) (s : Orchestrator F)
      → (r : OrchestrationResult) × ((submit_workload wire concat node policy (ok local) g c s).0
          ≡ ok r)
        × (r.plan ≡ policy g local (snapshot s.peers) c.now)
        × (r.local_tasks + r.offloaded_tasks ≡ placeable g r.plan.decisions)
        × (r.completed_tasks + r.failed_tasks
            ≡ ended_jobs c.begun (r.local_tasks + r.offloaded_tasks))
        × (r.completed_tasks + r.failed_tasks ≤ r.local_tasks + r.offloaded_tasks)
        × (r.offload_fallbacks ≤ r.offloaded_tasks)
  unfolding submit_workload
  submit_workload-counts node policy local g c s =
      let plan = policy g local (snapshot s.peers) c.now in
      let s' : Orchestrator F = record s { advertised = local } in
      let l = launched node g plan s' in
      let (b, whole) =
        launch-placeable node g plan.decisions
          (record { local_tasks = 0; offloaded_tasks = 0; jobs = []; state = s' })
          (record { jobs = refl; remote = refl }) in
      let ran = run_jobs-Ran c.begun l.jobs no_tally l.state in
      let ends : ended_jobs c.begun (length l.jobs)
          ≡ ended_jobs c.begun (l.local_tasks + l.offloaded_tasks) =
        ap (ended_jobs c.begun) b.jobs in
      (
        _,
        refl,
        refl,
        omega (arith, whole),
        omega (arith, ran.all_ended, ends),
        omega
            (arith, ran.all_ended, ends, ended_jobs-le c.begun (l.local_tasks + l.offloaded_tasks)),
        omega (arith, ran.fell_back, b.remote),
      )
