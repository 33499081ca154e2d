-- ===== src/Orchestrator/Offloading.antt =====
-- src/orchestrator/orchestrator.hpp: the state that the handlers share, a task that runs here, and one that
-- a peer runs. What the connection to a peer answers is an argument; src/network/transport.cpp gives it.
use edge_orchestrator_ai.Prelude.{
  ℕ, Bool, true, false, List, [], ◌∷◌, ◌++◌, Option, none, some, String, ◌==◌, ◌||◌, if◌then◌else◌,
  ite, String_discrete,
}
use edge_orchestrator_ai.Core.Result.{Result, ok, err, Error}
use edge_orchestrator_ai.Core.Types.{
  NodeId, TaskId, TaskProfile, TaskState, Duration, ResourceSnapshot,
}
use edge_orchestrator_ai.Executor.MemoryPool.{MemoryPool, reset}
use edge_orchestrator_ai.Executor.TaskRunner.{ExecutionResult, Surroundings, execute}
use edge_orchestrator_ai.Workload.Dag.{is_completed}
use edge_orchestrator_ai.Scheduler.Plan.{PeerInfo, SchedulingDecision}
use edge_orchestrator_ai.Network.ClusterView.{Peers, peer_info}
use edge_orchestrator_ai.Orchestrator.OffloadCodec.{
  Serializer, Response, encode_request, decode_request, encode_response, decode_response,
}

-- What is told to the metrics collector.
pub data Metric : Type 0 where
  task_event : TaskId → TaskState → Duration → Metric
  scheduling_decision : SchedulingDecision → Metric
  offload_fallback : TaskId → NodeId → Metric
  peer_event : NodeId → String → Metric
  orchestration_complete : ℕ → ℕ → ℕ → ℕ → Duration → Metric

-- The members that the handlers read and write: the arena, the peers of the cluster view, the resources that
-- discovery advertises, and the metrics in their order.
pub record Orchestrator (F : Type 0) : Type 0 where
  pub memory_pool : MemoryPool
  pub peers : Peers F
  pub advertised : ResourceSnapshot F
  pub metrics : List Metric

pub record RemoteOutcome : Type 0 where
  pub transport_ok : Bool
  pub task_ok : Bool
  pub duration : Duration
  pub error : String

-- TcpTransport as its client sees it: connect to an address and a port, send a frame, and receive one.
pub record Client (B : Type 0) : Type 0 where
  pub connect : String → ℕ → Result (Unit {0}) Error
  pub send : B → Result (Unit {0}) Error
  pub receive : B → Result B Error

abbrev pub empty_outcome : RemoteOutcome
empty_outcome = record { transport_ok = false; task_ok = false; duration = 0; error = "" }

-- value_or("")
abbrev pub message_of : Option String → String
message_of none = ""
message_of (some message) = message

module _ {F : Type 0} where
  abbrev pub record_metric : Metric → Orchestrator F → Orchestrator F
  record_metric m s = record s { metrics = s.metrics ++ (m ∷ []) }

  abbrev pub record_result : TaskId → ExecutionResult → Orchestrator F → Orchestrator F
  record_result id r s = record_metric (task_event id r.final_state r.actual_duration) s

  -- The stop token and the clock answer by the surroundings.
  unfoldable pub run_task :
      TaskId → TaskProfile → Surroundings → Orchestrator F → ExecutionResult × Orchestrator F
  run_task id profile w s =
      let (r, pool) = execute id profile w s.memory_pool in (r, record s { memory_pool = pool })

  -- The lock is free when no task runs.
  unfoldable pub try_reset_arena : Bool → Orchestrator F → Orchestrator F
  try_reset_arena owns_lock s =
      if owns_lock then record s { memory_pool = reset s.memory_pool } else s

module _ {B N : Type 0} (wire : Serializer B N) (concat : String → String → String) where
  abbrev pub failing : String → RemoteOutcome
  failing message = record empty_outcome { error = message }

  abbrev pub after_decode : Option Response → RemoteOutcome
  after_decode none = failing "malformed response"
  after_decode (some r) = record {
    transport_ok = true;
    task_ok = r.success;
    duration = r.duration;
    error = r.error_msg;
  }

  abbrev pub after_receive : Result B Error → RemoteOutcome
  after_receive (err e) = failing (concat "receive: " e.message)
  after_receive (ok reply) = after_decode (decode_response wire reply)

  abbrev pub after_send : Result (Unit {0}) Error → B → Client B → RemoteOutcome
  after_send (err e) request client = failing (concat "send: " e.message)
  after_send (ok sent) request client = after_receive (client.receive request)

  abbrev pub connection_made : Result (Unit {0}) Error → B → Client B → RemoteOutcome
  connection_made (err e) request client = failing (concat "connect: " e.message)
  connection_made (ok conn) request client = after_send (client.send request) request client

  -- A peer without an address or a port is no endpoint.
  abbrev pub to_endpoint : Bool → String → String → ℕ → B → Client B → RemoteOutcome
  to_endpoint true target address port request client =
      failing (concat "no known endpoint for " target)
  to_endpoint false target address port request client =
      connection_made (client.connect address port) request client

  abbrev pub to_peer : {F : Type 0} → Option (PeerInfo F) → NodeId → B → Client B → RemoteOutcome
  to_peer none target request client = failing (concat "no known endpoint for " target)
  to_peer (some peer) target request client =
      to_endpoint ((ite (String_discrete peer.address "") true false) || (peer.tcp_port == 0))
        target peer.address peer.tcp_port request client

  unfoldable pub offload_to_peer :
      {F : Type 0} → TaskId → TaskProfile → NodeId → Client B → Orchestrator F → RemoteOutcome
  offload_to_peer id profile target client s =
      to_peer (peer_info target s.peers) target (encode_request wire id profile []) client

  abbrev pub executed :
      {F : Type 0} → TaskId → Bool → ExecutionResult × Orchestrator F → B × Orchestrator F
  executed id owns_lock (r, s) = (
    encode_response wire (is_completed r.final_state) r.actual_duration r.peak_memory_bytes
        (message_of r.error_message) [],
    try_reset_arena owns_lock (record_result id r s),
  )

  abbrev pub handle_decoded :
      {F : Type 0}
      → Option (TaskId × TaskProfile × List ℕ)
      → Surroundings
      → Bool
      → Orchestrator F
      → B × Orchestrator F
  handle_decoded none w owns_lock s =
      (encode_response wire false 0 0 "Failed to decode request" [], s)
  handle_decoded (some (id, profile, input)) w owns_lock s =
      executed id owns_lock (run_task id profile w s)

  unfoldable pub handle_offload_request :
      {F : Type 0} → B → Surroundings → Bool → Orchestrator F → B × Orchestrator F
  handle_offload_request request w owns_lock s =
      handle_decoded (decode_request wire request) w owns_lock s
