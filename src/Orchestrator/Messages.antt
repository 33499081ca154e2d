-- ===== src/Orchestrator/Messages.antt =====
-- proto/protocol.proto: the messages, as the generated classes hold them; a field that is not set has
-- its default, and N is the type of an advertisement, which this wire does not carry. OrchestrationResult
-- is that of src/orchestrator/orchestrator.hpp.
use edge_orchestrator_ai.Prelude.{ℕ, List, String, Bool}
use edge_orchestrator_ai.Core.Types.{Duration}
use edge_orchestrator_ai.Scheduler.Plan.{SchedulingPlan}

pub record TaskProfileMsg : Type 0 where
  pub compute_cost_us : ℕ
  pub memory_bytes : ℕ
  pub input_bytes : ℕ
  pub output_bytes : ℕ

pub record OffloadRequest : Type 0 where
  pub request_id : String
  pub task_id : String
  pub task_name : String
  pub profile : TaskProfileMsg
  pub input_data : List ℕ

pub record OffloadResponse : Type 0 where
  pub request_id : String
  pub task_id : String
  pub success : Bool
  pub output_data : List ℕ
  pub actual_duration_us : ℕ
  pub peak_memory_bytes : ℕ
  pub error_message : String

pub record TaskSpec : Type 0 where
  pub task_id : String
  pub name : String
  pub profile : TaskProfileMsg
  pub dependencies : List String

pub record WorkloadSubmission : Type 0 where
  pub workload_id : String
  pub tasks : List TaskSpec

pub record WorkloadResult : Type 0 where
  pub workload_id : String
  pub accepted : Bool
  pub error_message : String
  pub local_tasks : ℕ
  pub offloaded_tasks : ℕ
  pub completed_tasks : ℕ
  pub failed_tasks : ℕ
  pub offload_fallbacks : ℕ
  pub makespan_estimate_us : ℕ
  pub total_duration_us : ℕ

pub data Envelope (N : Type 0) : Type 0 where
  not_set : Envelope N
  advertisement : N → Envelope N
  offload_request : OffloadRequest → Envelope N
  offload_response : OffloadResponse → Envelope N
  workload_submission : WorkloadSubmission → Envelope N
  workload_result : WorkloadResult → Envelope N

pub record OrchestrationResult : Type 0 where
  pub plan : SchedulingPlan
  pub local_tasks : ℕ
  pub offloaded_tasks : ℕ
  pub completed_tasks : ℕ
  pub failed_tasks : ℕ
  pub offload_fallbacks : ℕ
  pub total_duration : Duration
