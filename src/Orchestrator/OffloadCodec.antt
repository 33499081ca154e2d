-- ===== src/Orchestrator/OffloadCodec.antt =====
-- src/orchestrator/offload_codec.cpp: OffloadCodec. The serializer that is generated from the schema is a
-- parameter. A decoder that returns false returns none, for it has written to no output; the one of
-- submissions may have, and returns what it wrote. The casts between int64_t and uint64_t keep
-- the word of a duration, which is unchecked and may be that of a negative count.
pub mod RoundTrip
pub mod Submissions
use edge_orchestrator_ai.Prelude.{
  ℕ, Bool, true, false, not, ◌&&◌, List, [], ◌∷◌, ◌++◌, Option, none, some, String, map, ◌≡◌,
}
use edge_orchestrator_ai.Core.Types.{TaskId, TaskProfile, Duration, pending}
use edge_orchestrator_ai.Workload.Dag.{Task, WorkloadDag, get_task, add_task, add_dependency}
use edge_orchestrator_ai.Workload.Dag.Kahn.{topological_order}
use edge_orchestrator_ai.Workload.Dag.Cycle.{has_cycle, is_valid}
use edge_orchestrator_ai.Workload.Dag.Iteration.{Iteration}
use edge_orchestrator_ai.Orchestrator.Messages.{
  TaskProfileMsg, OffloadRequest, OffloadResponse, TaskSpec, WorkloadSubmission, WorkloadResult,
  Envelope, not_set, advertisement, offload_request, offload_response, workload_submission,
  workload_result, OrchestrationResult,
}

pub data WireKind : Type 0 where
  unknown request response submission result : WireKind

-- SerializeToArray and ParseFromArray of the generated Envelope, over the type B of byte strings, and what
-- the documentation says of them.
pub record Serializer (B N : Type 0) : Type 0 where
  pub serialize : Envelope N → B
  pub parse : B → Option (Envelope N)
  pub parse-serialize : (e : Envelope N) → parse (serialize e) ≡ some e

abbrev pub profile_message : TaskProfile → TaskProfileMsg
profile_message p = record {
  compute_cost_us = p.compute_cost;
  memory_bytes = p.memory_bytes;
  input_bytes = p.input_bytes;
  output_bytes = p.output_bytes;
}

abbrev pub profile_of : TaskProfileMsg → TaskProfile
profile_of m = record {
  compute_cost = m.compute_cost_us;
  memory_bytes = m.memory_bytes;
  input_bytes = m.input_bytes;
  output_bytes = m.output_bytes;
}

-- One task of encode_submission.
abbrev pub spec_of : Task → TaskSpec
spec_of task = record {
  task_id = task.id;
  name = task.name;
  profile = profile_message task.profile;
  dependencies = task.dependencies;
}

-- The loop of encode_submission over the topological order.
abbrev pub listed : Option Task → List TaskSpec → List TaskSpec
listed none specs = specs
listed (some task) specs = spec_of task ∷ specs

abbrev pub specs_of : WorkloadDag → List TaskId → List TaskSpec
specs_of g [] = []
specs_of g (id ∷ ids) = listed (get_task id g) (specs_of g ids)

-- The two passes of decode_submission.
abbrev pub task_of : TaskSpec → Task
task_of spec = record {
  id = spec.task_id;
  name = spec.name;
  profile = profile_of spec.profile;
  dependencies = [];
  state = pending;
}

abbrev pub add_specs : List TaskSpec → WorkloadDag → WorkloadDag
add_specs [] g = g
add_specs (spec ∷ specs) g = add_specs specs (add_task (task_of spec) g)

abbrev pub add_edges : List TaskId → TaskId → WorkloadDag → WorkloadDag
add_edges [] id g = g
add_edges (dep ∷ deps) id g = add_edges deps id (add_dependency dep id g)

abbrev pub add_all_edges : List TaskSpec → WorkloadDag → WorkloadDag
add_all_edges [] g = g
add_all_edges (spec ∷ specs) g = add_all_edges specs (add_edges spec.dependencies spec.task_id g)

abbrev pub kind_of : {N : Type 0} → Option (Envelope N) → WireKind
kind_of (some (offload_request m)) = request
kind_of (some (offload_response m)) = response
kind_of (some (workload_submission m)) = submission
kind_of (some (workload_result m)) = result
kind_of other = unknown

abbrev pub request_of : {N : Type 0} → Option (Envelope N) → Option (TaskId × TaskProfile × List ℕ)
request_of (some (offload_request m)) = some (m.task_id, profile_of m.profile, m.input_data)
request_of other = none

pub record Response : Type 0 where
  pub success : Bool
  pub duration : Duration
  pub peak_memory : ℕ
  pub error_msg : String
  pub output : List ℕ

abbrev pub response_of : {N : Type 0} → Option (Envelope N) → Option Response
response_of (some (offload_response m)) = some (record {
  success = m.success;
  duration = m.actual_duration_us;
  peak_memory = m.peak_memory_bytes;
  error_msg = m.error_message;
  output = m.output_data;
})
response_of other = none

pub record Report : Type 0 where
  pub workload_id : String
  pub accepted : Bool
  pub error_msg : String
  pub result : OrchestrationResult

-- The decisions of the plan are not on the wire; the caller's are kept.
abbrev pub report_of : {N : Type 0} → OrchestrationResult → Option (Envelope N) → Option Report
report_of before (some (workload_result m)) = some (record {
  workload_id = m.workload_id;
  accepted = m.accepted;
  error_msg = m.error_message;
  result = record {
    plan = record (before.plan) { estimated_makespan = m.makespan_estimate_us };
    local_tasks = m.local_tasks;
    offloaded_tasks = m.offloaded_tasks;
    completed_tasks = m.completed_tasks;
    failed_tasks = m.failed_tasks;
    offload_fallbacks = m.offload_fallbacks;
    total_duration = m.total_duration_us;
  };
})
report_of before other = none

-- dag.is_valid() && !dag.has_cycle(); none would be a search that runs out of fuel, which that of a graph whose
-- edges join its tasks does not.
abbrev pub accepts : Option Bool → Option Bool → Option Bool
accepts (some true) (some cyclic) = some (not cyclic)
accepts (some true) none = none
accepts (some false) cyclic = some false
accepts none cyclic = none

abbrev pub submission_of :
    {N : Type 0} → Option (Envelope N) → String → WorkloadDag → Option Bool × String × WorkloadDag
submission_of (some (workload_submission sub)) workload_id dag =
    let g = add_all_edges sub.tasks (add_specs sub.tasks dag) in
    (accepts (is_valid g) (has_cycle g), sub.workload_id, g)
submission_of other workload_id dag = (some false, workload_id, dag)

module _ {B N : Type 0} (wire : Serializer B N) where
  open wire use {serialize, parse}

  unfoldable pub classify : B → WireKind
  classify bytes = kind_of (parse bytes)

  unfoldable pub encode_request : TaskId → TaskProfile → List ℕ → B
  encode_request id profile input = serialize (
      offload_request (record {
        request_id = "";
        task_id = id;
        task_name = "";
        profile = profile_message profile;
        input_data = input;
      }))

  unfoldable pub decode_request : B → Option (TaskId × TaskProfile × List ℕ)
  decode_request bytes = request_of (parse bytes)

  unfoldable pub encode_response : Bool → Duration → ℕ → String → List ℕ → B
  encode_response success duration peak_memory error_msg output = serialize (
      offload_response (record {
        request_id = "";
        task_id = "";
        success = success;
        output_data = output;
        actual_duration_us = duration;
        peak_memory_bytes = peak_memory;
        error_message = error_msg;
      }))

  unfoldable pub decode_response : B → Option Response
  decode_response bytes = response_of (parse bytes)

  unfoldable pub encode_workload_result : String → Bool → String → OrchestrationResult → B
  encode_workload_result workload_id accepted error_msg r = serialize (
      workload_result (record {
        workload_id = workload_id;
        accepted = accepted;
        error_message = error_msg;
        local_tasks = r.local_tasks;
        offloaded_tasks = r.offloaded_tasks;
        completed_tasks = r.completed_tasks;
        failed_tasks = r.failed_tasks;
        offload_fallbacks = r.offload_fallbacks;
        makespan_estimate_us = r.plan.estimated_makespan;
        total_duration_us = r.total_duration;
      }))

  unfoldable pub decode_workload_result : B → OrchestrationResult → Option Report
  decode_workload_result bytes before = report_of before (parse bytes)

  unfoldable pub encode_submission : Iteration → String → WorkloadDag → B
  encode_submission it workload_id dag = serialize (
      workload_submission
        (record { workload_id = workload_id; tasks = specs_of dag (topological_order it dag) }))

  -- Whether the submission is accepted, and the outputs.
  unfoldable pub decode_submission : B → String → WorkloadDag → Option Bool × String × WorkloadDag
  decode_submission bytes workload_id dag = submission_of (parse bytes) workload_id dag
