-- ===== src/Orchestrator/Workloads.antt =====
-- src/orchestrator/orchestrator.hpp: the decisions of submit_workload become jobs of the pool, which run in
-- any order. They share the arena, whose allocation is one step, and the counters. A job that has not
-- ended when the wait ends may have begun: it has then allocated, and counted the fallback. The metrics of the jobs stand behind those of the decisions,
-- although a job may run before the last decision is submitted.
use edge_orchestrator_ai.Prelude.{
  ℕ, zero, suc, ◌+◌, Bool, true, false, List, [], ◌∷◌, ◌++◌, Option, none, some, String,
  if◌then◌else◌, ite, String_discrete,
}
use edge_orchestrator_ai.Core.Types.{NodeId, TaskId, TaskProfile, completed, failed}
use edge_orchestrator_ai.Executor.TaskRunner.{ExecutionResult, Surroundings}
use edge_orchestrator_ai.Workload.Dag.{Task, WorkloadDag, get_task}
use edge_orchestrator_ai.Scheduler.Plan.{SchedulingDecision}
use edge_orchestrator_ai.Orchestrator.OffloadCodec.{Serializer}
use edge_orchestrator_ai.Workload.Dag.{is_completed}
use edge_orchestrator_ai.Orchestrator.Offloading.{
  Orchestrator, RemoteOutcome, Client, task_event, scheduling_decision, offload_fallback,
  record_metric, record_result, run_task, offload_to_peer,
}

-- A closure that is submitted to the pool, with what it captures.
pub data Job : Type 0 where
  runs_here : TaskId → TaskProfile → Job
  offloads : TaskId → TaskProfile → NodeId → Job

pub record Launch (F : Type 0) : Type 0 where
  pub local_tasks : ℕ
  pub offloaded_tasks : ℕ
  pub jobs : List Job
  pub state : Orchestrator F

pub record Tally : Type 0 where
  pub completed_tasks : ℕ
  pub failed_tasks : ℕ
  pub fallbacks : ℕ

abbrev pub counted : Bool → Tally → Tally
counted true t = record t { completed_tasks = t.completed_tasks + 1 }
counted false t = record t { failed_tasks = t.failed_tasks + 1 }

-- What surrounds one job: the clock and the token of its run, and its connection.
pub record World (B : Type 0) : Type 0 where
  pub surroundings : Surroundings
  pub client : Client B

module _ {F : Type 0} where
  abbrev pub launch_job : Bool → SchedulingDecision → Task → Launch F → Launch F
  launch_job true d task l = record l {
    local_tasks = l.local_tasks + 1;
    jobs = l.jobs ++ (runs_here d.task_id task.profile ∷ []);
    state = record_metric (scheduling_decision d) l.state;
  }
  launch_job false d task l = record l {
    offloaded_tasks = l.offloaded_tasks + 1;
    jobs = l.jobs ++ (offloads d.task_id task.profile d.assigned_node ∷ []);
    state = record_metric (scheduling_decision d) l.state;
  }

  -- A decision whose task is not in the graph is passed over.
  abbrev pub launch_decision : NodeId → SchedulingDecision → Option Task → Launch F → Launch F
  launch_decision node d none l = l
  launch_decision node d (some task) l =
      launch_job (ite (String_discrete d.assigned_node node) true false) d task l

  unfoldable pub launch : NodeId → WorkloadDag → List SchedulingDecision → Launch F → Launch F
  launch node g [] l = l
  launch node g (d ∷ ds) l = launch node g ds (launch_decision node d (get_task d.task_id g) l)

  abbrev pub ran_here : TaskId → ExecutionResult × Orchestrator F → Tally → Tally × Orchestrator F
  ran_here id (r, s) t = (counted (is_completed r.final_state) t, record_result id r s)

  abbrev pub after_offload :
      Bool
      → TaskId
      → TaskProfile
      → NodeId
      → RemoteOutcome
      → Surroundings
      → Tally
      → Orchestrator F
      → Tally × Orchestrator F
  after_offload true id profile target o w t s = (
    counted o.task_ok t,
    record_metric (task_event id (if o.task_ok then completed else failed) o.duration) s,
  )
  after_offload false id profile target o w t s =
      ran_here id (run_task id profile w (record_metric (offload_fallback id target) s))
        (record t { fallbacks = t.fallbacks + 1 })

-- One of the jobs that are left, and the others.
unfoldable pub take_job : ℕ → List Job → Option (Job × List Job)
take_job n [] = none
take_job zero (job ∷ jobs) = some (job, jobs)
take_job (suc n) (job ∷ jobs) = elim (take_job n jobs) [
  | none ↦ none
  | some (j, left) ↦ some (j, job ∷ left)
]

module _ {B N F : Type 0} (wire : Serializer B N) (concat : String → String → String) where
  unfoldable pub run_job : Job → World B → Tally → Orchestrator F → Tally × Orchestrator F
  run_job (runs_here id profile) w t s = ran_here id (run_task id profile w.surroundings s) t
  run_job (offloads id profile target) w t s =
      let o = offload_to_peer wire concat id profile target w.client s in
      after_offload o.transport_ok id profile target o w.surroundings t s

  -- A job that has begun to execute here and has not ended: nothing of its end is counted.
  abbrev pub begun_after_offload :
      Bool
      → TaskId
      → TaskProfile
      → NodeId
      → Surroundings
      → Tally
      → Orchestrator F
      → Tally × Orchestrator F
  begun_after_offload true id profile target w t s = (t, s)
  begun_after_offload false id profile target w t s = (
    record t { fallbacks = t.fallbacks + 1 },
    (run_task id profile w (record_metric (offload_fallback id target) s)).1,
  )

  unfoldable pub begin_job : Job → World B → Tally → Orchestrator F → Tally × Orchestrator F
  begin_job (runs_here id profile) w t s = (t, (run_task id profile w.surroundings s).1)
  begin_job (offloads id profile target) w t s =
      let o = offload_to_peer wire concat id profile target w.client s in
      begun_after_offload o.transport_ok id profile target w.surroundings t s

  -- Whether the job has ended.
  abbrev pub go_on : Bool → Job → World B → Tally → Orchestrator F → Tally × Orchestrator F
  go_on true job w t s = run_job job w t s
  go_on false job w t s = begin_job job w t s

  abbrev pub job_taken :
      Option (Job × List Job)
      → Bool
      → World B
      → List Job
      → Tally
      → Orchestrator F
      → List Job × Tally × Orchestrator F
  job_taken none ended w jobs t s = (jobs, t, s)
  job_taken (some (job, left)) ended w jobs t s =
      let (t', s') = go_on ended job w t s in (left, t', s')

  -- The jobs that begin before the wait ends, each named by its place among those that are left, and whether
  -- it has ended by then.
  unfoldable pub run_jobs :
      List (ℕ × Bool × World B) → List Job → Tally → Orchestrator F → Tally × Orchestrator F
  run_jobs [] jobs t s = (t, s)
  run_jobs ((n, ended, w) ∷ begun) jobs t s =
      let (jobs', t', s') = job_taken (take_job n jobs) ended w jobs t s in
      run_jobs begun jobs' t' s'
