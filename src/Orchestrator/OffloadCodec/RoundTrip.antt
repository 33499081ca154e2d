-- ===== src/Orchestrator/OffloadCodec/RoundTrip.antt =====
-- What is encoded is what is decoded.
use edge_orchestrator_ai.Prelude.{ℕ, Bool, List, some, String, ◌≡◌, ap}
use edge_orchestrator_ai.Core.Types.{TaskId, TaskProfile, Duration}
use edge_orchestrator_ai.Orchestrator.Messages.{OrchestrationResult}
use edge_orchestrator_ai.Orchestrator.OffloadCodec.{
  Serializer, request, response, result, Response, Report, kind_of, request_of, response_of,
  report_of, classify, encode_request, decode_request, encode_response, decode_response,
  encode_workload_result, decode_workload_result,
}

module _ {B N : Type 0} (wire : Serializer B N) where
  open wire use {parse-serialize}

  pub request-round_trip :
      (id : TaskId) (profile : TaskProfile) (input : List ℕ)
      → (classify wire (encode_request wire id profile input) ≡ request)
        × (decode_request wire (encode_request wire id profile input) ≡ some (id, profile, input))
  unfolding classify encode_request decode_request
  request-round_trip id profile input =
      (ap kind_of (parse-serialize _), ap request_of (parse-serialize _))

  pub response-round_trip :
      (success : Bool) (duration : Duration) (peak : ℕ) (error : String) (output : List ℕ)
      → (classify wire (encode_response wire success duration peak error output) ≡ response)
        × (decode_response wire (encode_response wire success duration peak error output)
            ≡ some (record {
              success = success;
              duration = duration;
              peak_memory = peak;
              error_msg = error;
              output = output;
            }))
  unfolding classify encode_response decode_response
  response-round_trip success duration peak error output =
      (ap kind_of (parse-serialize _), ap response_of (parse-serialize _))

  pub report-round_trip :
      (id : String) (accepted : Bool) (error : String) (r before : OrchestrationResult)
      → (classify wire (encode_workload_result wire id accepted error r) ≡ result)
        × (decode_workload_result wire (encode_workload_result wire id accepted error r) before
            ≡ some (record {
              workload_id = id;
              accepted = accepted;
              error_msg = error;
              result = record r {
                plan = record (before.plan) { estimated_makespan = r.plan.estimated_makespan };
              };
            }))
  unfolding classify encode_workload_result decode_workload_result
  report-round_trip id accepted error r before =
      (ap kind_of (parse-serialize _), ap (report_of before) (parse-serialize _))

  -- If the serializer parses what it serializes, a request, a response and a workload result are
  -- decoded to what was encoded; of the plan in a result, only the makespan is sent.
  pub codec_round_trips :
      (id : TaskId) (profile : TaskProfile) (input : List ℕ) (r : Response) (report : Report)
      → (decode_request wire (encode_request wire id profile input) ≡ some (id, profile, input))
        × (decode_response wire
              (encode_response wire r.success r.duration r.peak_memory r.error_msg r.output)
            ≡ some r)
        × (decode_workload_result wire
              (encode_workload_result wire report.workload_id report.accepted report.error_msg
                report.result)
              report.result
            ≡ some report)
  codec_round_trips id profile input r report = (
    (request-round_trip id profile input).1,
    (response-round_trip r.success r.duration r.peak_memory r.error_msg r.output).1,
    (report-round_trip report.workload_id report.accepted report.error_msg report.result
        report.result).1,
  )
