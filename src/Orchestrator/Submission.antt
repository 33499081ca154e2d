-- ===== src/Orchestrator/Submission.antt =====
-- src/orchestrator/orchestrator.hpp: submit_workload and the dispatch of messages.
use edge_orchestrator_ai.Prelude.{ℕ, Bool, true, false, List, [], Option, some, String}
use edge_orchestrator_ai.Core.Result.{Result, ok, err, Error, error_of}
use edge_orchestrator_ai.Core.Types.{NodeId, Duration, Timestamp, ResourceSnapshot}
use edge_orchestrator_ai.Executor.TaskRunner.{Surroundings}
use edge_orchestrator_ai.Workload.Dag.{WorkloadDag, empty_dag}
use edge_orchestrator_ai.Scheduler.Plan.{SchedulingPlan}
use edge_orchestrator_ai.Network.ClusterView.{snapshot}
use edge_orchestrator_ai.Orchestrator.Messages.{OrchestrationResult}
use edge_orchestrator_ai.Orchestrator.OffloadCodec.{
  Serializer, WireKind, request, submission, classify, encode_response, encode_workload_result,
  decode_submission,
}
use edge_orchestrator_ai.Orchestrator.Offloading.{
  Orchestrator, orchestration_complete, record_metric, try_reset_arena, handle_offload_request,
}
use edge_orchestrator_ai.Orchestrator.Policies.{SchedulingPolicy}
use edge_orchestrator_ai.Orchestrator.Workloads.{Launch, Tally, World, launch, run_jobs}

-- What one submission meets: the time, the jobs that begin while it waits and whether each ends, whether the arena's lock is free, and
-- how long it all takes.
pub record Course (B : Type 0) : Type 0 where
  pub now : Timestamp
  pub begun : List (ℕ × Bool × World B)
  pub owns_lock : Bool
  pub total_duration : Duration

abbrev pub launched :
    {F : Type 0} → NodeId → WorkloadDag → SchedulingPlan → Orchestrator F → Launch F
launched node g plan s =
    launch node g plan.decisions
      (record { local_tasks = 0; offloaded_tasks = 0; jobs = []; state = s })

abbrev pub no_tally : Tally
no_tally = record { completed_tasks = 0; failed_tasks = 0; fallbacks = 0 }

-- OrchestrationResult{}
abbrev pub empty_result : OrchestrationResult
empty_result = record {
  plan = record { decisions = []; estimated_makespan = 0; computed_at = 0 };
  local_tasks = 0;
  offloaded_tasks = 0;
  completed_tasks = 0;
  failed_tasks = 0;
  offload_fallbacks = 0;
  total_duration = 0;
}

module _ {B N F : Type 0} (wire : Serializer B N) (concat : String → String → String)
    (node : NodeId) (policy : SchedulingPolicy F) where
  -- After the wait.
  abbrev pub collected :
      SchedulingPlan
      → Launch F
      → Course B
      → Tally × Orchestrator F
      → Result OrchestrationResult Error × Orchestrator F
  collected plan l c (t, s) = (
    ok (record {
      plan = plan;
      local_tasks = l.local_tasks;
      offloaded_tasks = l.offloaded_tasks;
      completed_tasks = t.completed_tasks;
      failed_tasks = t.failed_tasks;
      offload_fallbacks = t.fallbacks;
      total_duration = c.total_duration;
    }),
    record_metric
        (orchestration_complete l.local_tasks l.offloaded_tasks t.completed_tasks t.failed_tasks
          c.total_duration)
        (try_reset_arena c.owns_lock s),
  )

  abbrev pub executes :
      SchedulingPlan
      → WorkloadDag
      → Course B
      → Orchestrator F
      → Result OrchestrationResult Error × Orchestrator F
  executes plan g c s =
      let l = launched node g plan s in
      collected plan l c (run_jobs wire concat c.begun l.jobs no_tally l.state)

  -- monitor_.read() is the first argument.
  unfoldable pub submit_workload :
      Result (ResourceSnapshot F) Error
      → WorkloadDag
      → Course B
      → Orchestrator F
      → Result OrchestrationResult Error × Orchestrator F
  submit_workload (err e) g c s = (err (error_of "Resource monitor not ready"), s)
  submit_workload (ok local) g c s =
      let s' = record s { advertised = local } in
      executes (policy g local (snapshot s'.peers) c.now) g c s'

  -- One turn of resource_update_loop.
  unfoldable pub resource_update :
      Result (ResourceSnapshot F) Error → Orchestrator F → Orchestrator F
  resource_update (err e) s = s
  resource_update (ok local) s = record s { advertised = local }

  abbrev pub replied :
      String → Result OrchestrationResult Error × Orchestrator F → B × Orchestrator F
  replied id (err e, s) = (encode_workload_result wire id false e.message empty_result, s)
  replied id (ok r, s) = (encode_workload_result wire id true "" r, s)

  abbrev pub after_submission :
      Result (ResourceSnapshot F) Error
      → Course B
      → Orchestrator F
      → Option Bool × String × WorkloadDag
      → B × Orchestrator F
  after_submission read c s (some true, id, g) = replied id (submit_workload read g c s)
  after_submission read c s (refused, id, g) =
      (encode_workload_result wire id false "Invalid workload submission" empty_result, s)

  unfoldable pub handle_workload_submission :
      B → Result (ResourceSnapshot F) Error → Course B → Orchestrator F → B × Orchestrator F
  handle_workload_submission bytes read c s =
      after_submission read c s (decode_submission wire bytes "" empty_dag)

  abbrev pub dispatched :
      WireKind
      → B
      → Result (ResourceSnapshot F) Error
      → Surroundings
      → Course B
      → Orchestrator F
      → B × Orchestrator F
  dispatched request bytes read w c s = handle_offload_request wire concat bytes w c.owns_lock s
  dispatched submission bytes read w c s = handle_workload_submission bytes read c s
  dispatched other bytes read w c s =
      (encode_response wire false 0 0 "Unsupported message type" [], s)

  unfoldable pub handle_message :
      B
      → Result (ResourceSnapshot F) Error
      → Surroundings
      → Course B
      → Orchestrator F
      → B × Orchestrator F
  handle_message bytes read w c s = dispatched (classify wire bytes) bytes read w c s
