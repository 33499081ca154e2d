-- ===== src/Orchestrator/EndToEnd.antt =====
-- A submission that arrives as bytes, up to the bytes of the answer.
use edge_orchestrator_ai.Prelude.{
  ◌+◌, ◌≡◌, refl, ◌∙◌, Bool, true, false, Option, some, none, String,
}
use edge_orchestrator_ai.Core.Floats.{Floats}
use edge_orchestrator_ai.Core.Result.{Result, ok, err, Error}
use edge_orchestrator_ai.Core.Types.{NodeId, ResourceSnapshot}
use edge_orchestrator_ai.Workload.Dag.{WorkloadDag, empty_dag, task_count}
use edge_orchestrator_ai.Workload.Dag.Graph.{IsWellFormed, IsClosed, IsAcyclic}
use edge_orchestrator_ai.Workload.Dag.Iteration.{Iteration}
use edge_orchestrator_ai.Scheduler.Threshold.{ThresholdPolicyConfig}
use edge_orchestrator_ai.Scheduler.Optimizer.{OptimizerPolicyConfig, Sorting, Random}
use edge_orchestrator_ai.Orchestrator.Messages.{
  OrchestrationResult, WorkloadSubmission, workload_submission,
}
use edge_orchestrator_ai.Orchestrator.OffloadCodec.{
  Serializer, Report, decode_submission, decode_workload_result,
}
use edge_orchestrator_ai.Orchestrator.OffloadCodec.RoundTrip.{report-round_trip}
use edge_orchestrator_ai.Orchestrator.OffloadCodec.Submissions.{
  Named, spec_ids, decode_submission-accepts,
}
use edge_orchestrator_ai.Orchestrator.Offloading.{Orchestrator}
use edge_orchestrator_ai.Orchestrator.Policies.{SchedulingPolicy, create_policy}
use edge_orchestrator_ai.Orchestrator.Submission.{
  Course, handle_workload_submission, empty_result, after_submission, replied,
}
use edge_orchestrator_ai.Orchestrator.Launches.{submit_workload-launches_all}

module _ {B N : Type 0} (wire : Serializer B N) (concat : String → String → String) (f : Floats)
    (sorting : Sorting) (random : Random) (it : Iteration) (name : String)
    (threshold : ThresholdPolicyConfig f.Float) (optimizer : OptimizerPolicyConfig f.Float) where
  abbrev pub policy : SchedulingPolicy f.Float
  policy = create_policy f sorting random it name threshold optimizer

  -- The answer to an accepted submission, from the result.
  answered :
      (node : NodeId) (id : String) (r : OrchestrationResult) (s : Orchestrator f.Float)
      (o : Result OrchestrationResult Error × Orchestrator f.Float)
      → o.0 ≡ ok r
      → (report : Report) × (decode_workload_result wire
            (replied wire concat node policy id o).0
            empty_result
          ≡ some report)
        × (report.accepted ≡ true)
        × (report.workload_id ≡ id)
        × (report.result.local_tasks + report.result.offloaded_tasks
            ≡ r.local_tasks + r.offloaded_tasks)
  answered node id r s (err e, s') is = absurd cc
  answered node id r s (ok r', s') is =
      (_, (report-round_trip wire id true "" r' empty_result).1, refl, refl, cc)

  -- When the bytes parse as a submission in which every dependency names one of its tasks,
  -- decode_submission accepts it, and the monitor gives a snapshot, the answer of
  -- handle_workload_submission, with create_policy under any policy name, decodes to an accepted
  -- result with the submission's id, in which the local and the offloaded tasks together are as
  -- many as the tasks of the decoded graph.
  pub handle_workload_submission-launches_all :
      (bytes : B) (sub : WorkloadSubmission) (node : NodeId) (local : ResourceSnapshot f.Float)
      (c : Course B) (s : Orchestrator f.Float)
      → wire.parse bytes ≡ some (workload_submission sub)
      → Named (spec_ids sub.tasks) sub.tasks
      → (decode_submission wire bytes "" empty_dag).0 ≡ some true
      → (report : Report) × (decode_workload_result wire
            (handle_workload_submission wire concat node policy bytes (ok local) c s).0
            empty_result
          ≡ some report)
        × (report.accepted ≡ true)
        × (report.workload_id ≡ sub.workload_id)
        × (report.result.local_tasks + report.result.offloaded_tasks
            ≡ task_count (decode_submission wire bytes "" empty_dag).2)
  unfolding handle_workload_submission
  handle_workload_submission-launches_all bytes sub node local c s parsed named accepted =
      let (same, wf, closed, known, linked, valid) =
        decode_submission-accepts wire bytes sub "" parsed named in
      from (decode_submission wire bytes "" empty_dag) accepted
        (same, wf, closed, (valid.0 accepted).1)
    where
      from :
          (d : Option Bool × String × WorkloadDag)
          → d.0 ≡ some true
          → (d.1 ≡ sub.workload_id) × IsWellFormed d.2 × IsClosed d.2 × IsAcyclic d.2
          → (report : Report) × (decode_workload_result wire
                (after_submission wire concat node policy (ok local) c s d).0
                empty_result
              ≡ some report)
            × (report.accepted ≡ true)
            × (report.workload_id ≡ sub.workload_id)
            × (report.result.local_tasks + report.result.offloaded_tasks ≡ task_count d.2)
      from (some true, id, g) e (same, wf, closed, acyclic) =
          let (r, is, all) =
            submit_workload-launches_all f sorting random it g wf closed name threshold optimizer
              wire concat node local c s acyclic in
          let (report, sent, granted, named_id, counts) = answered node id r s _ is in
          (report, sent, granted, named_id ∙ same, counts ∙ all)
      from (some false, id, g) e facts = absurd cc
      from (none, id, g) e facts = absurd cc
