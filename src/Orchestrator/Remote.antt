-- ===== src/Orchestrator/Remote.antt =====
-- A task that a peer runs, and what a handler answers.
use edge_orchestrator_ai.Prelude.{
  ℕ, Bool, true, false, List, [], Option, none, some, String, ◌≡◌, ◌≢◌, ◌⊎◌, inl, inr, refl, ◌∙◌,
  ap, arith, String_discrete, if_neg, ite, ◌==◌, ◌||◌,
}
use edge_orchestrator_ai.Core.Result.{Result, ok, err, Error}
use edge_orchestrator_ai.Core.Types.{NodeId, TaskId, TaskProfile, ResourceSnapshot}
use edge_orchestrator_ai.Executor.TaskRunner.{ExecutionResult, Surroundings}
use edge_orchestrator_ai.Scheduler.Plan.{PeerInfo}
use edge_orchestrator_ai.Network.ClusterView.{peer_info}
use edge_orchestrator_ai.Orchestrator.OffloadCodec.{
  Serializer, WireKind, unknown, request, response, submission, result, classify, encode_request,
  decode_request, decode_submission,
}
use edge_orchestrator_ai.Orchestrator.OffloadCodec.RoundTrip.{
  request-round_trip, response-round_trip, report-round_trip,
}
use edge_orchestrator_ai.Workload.Dag.{is_completed}
use edge_orchestrator_ai.Orchestrator.Offloading.{
  Orchestrator, Client, run_task, offload_to_peer, handle_offload_request, message_of, to_peer,
  to_endpoint, connection_made, after_send, after_receive, after_decode, handle_decoded,
}
use edge_orchestrator_ai.Orchestrator.Policies.{SchedulingPolicy}
use edge_orchestrator_ai.Orchestrator.Submission.{
  Course, handle_message, handle_workload_submission, submit_workload, dispatched, replied,
  after_submission, empty_result,
}
use edge_orchestrator_ai.Workload.Dag.{WorkloadDag, empty_dag}
use edge_orchestrator_ai.Orchestrator.Messages.{OrchestrationResult}

module _ {B N F : Type 0} (wire : Serializer B N) (concat : String → String → String)
    (node : NodeId) (policy : SchedulingPolicy F) where
  -- The peer's handler runs the task that a request names.
  handled :
      (id : TaskId) (profile : TaskProfile) (read : Result (ResourceSnapshot F) Error)
      (w : Surroundings) (c : Course B) (s : Orchestrator F)
      → handle_message wire concat node policy (encode_request wire id profile []) read w c s
        ≡ handle_decoded wire concat (some (id, profile, [])) w c.owns_lock s
  unfolding handle_message handle_offload_request
  handled id profile read w c s =
      let round = request-round_trip wire id profile [] in
      ap (λ k. dispatched wire concat node policy k (encode_request wire id profile []) read w c s)
        round.0
      ∙ ap (λ d. handle_decoded wire concat d w c.owns_lock s) round.1

  -- When the peer is known with an address and a port, the connection goes well, and what comes
  -- back is what the peer's handle_message answers to the request that was sent, offload_to_peer
  -- reports the success, the duration and the error message of that task's run on the peer.
  pub offload_to_peer-executes :
      (id : TaskId) (profile : TaskProfile) (target : NodeId) (client : Client B)
      (here there : Orchestrator F) (peer : PeerInfo F) (read : Result (ResourceSnapshot F) Error)
      (w : Surroundings) (c : Course B)
      → peer_info target here.peers ≡ some peer
      → peer.address ≢ ""
      → peer.tcp_port ≢ 0
      → client.connect peer.address peer.tcp_port ≡ ok tt
      → client.send (encode_request wire id profile []) ≡ ok tt
      → client.receive (encode_request wire id profile [])
        ≡ ok
            (handle_message wire concat node policy
              (encode_request wire id profile [])
              read
              w
              c
              there).0
      → offload_to_peer wire concat id profile target client here ≡ record {
        transport_ok = true;
        task_ok = is_completed (run_task id profile w there).0.final_state;
        duration = (run_task id profile w there).0.actual_duration;
        error = message_of (run_task id profile w there).0.error_message;
      }
  unfolding offload_to_peer
  offload_to_peer-executes id profile target client here there peer read w c known address port
        connected sent received =
      ap (λ o. to_peer wire concat o target sending client) known
      ∙ ap (λ b. to_endpoint wire concat b target peer.address peer.tcp_port sending client)
          endpoint
      ∙ ap (λ r. connection_made wire concat r sending client) connected
      ∙ ap (λ r. after_send wire concat r sending client) sent
      ∙ ap (λ r. after_receive wire concat r)
          (received ∙ ap (λ (r : B × Orchestrator F). ok r.0) (handled id profile read w c there))
      ∙ ap (after_decode wire concat)
          (response-round_trip wire (is_completed ran.final_state) ran.actual_duration
            ran.peak_memory_bytes (message_of ran.error_message) []).1
    where
      sending : B
      sending = encode_request wire id profile []

      ran : ExecutionResult
      ran = (run_task id profile w there).0

      none_zero : (n : ℕ) → n ≢ 0 → (false || (n == 0)) ≡ false
      none_zero n h = ground (arith, h)

      endpoint : (ite (String_discrete peer.address "") true false) || (peer.tcp_port == 0) ≡ false
      endpoint =
          ap (λ b. b || (peer.tcp_port == 0))
            (if_neg (String_discrete peer.address "") address true false)
          ∙ none_zero peer.tcp_port port

  -- A submission is answered by a result.
  submission_answered :
      (bytes : B) (read : Result (ResourceSnapshot F) Error) (c : Course B) (s : Orchestrator F)
      → classify wire (handle_workload_submission wire concat node policy bytes read c s).0 ≡ result
  unfolding handle_workload_submission
  submission_answered bytes read c s = decoded (decode_submission wire bytes "" empty_dag)
    where
      reply :
          (id : String) (r : Result OrchestrationResult Error × Orchestrator F)
          → classify wire (replied wire concat node policy id r).0 ≡ result
      reply id (err e, s') = (report-round_trip wire id false e.message _ empty_result).0
      reply id (ok r, s') = (report-round_trip wire id true "" r empty_result).0

      decoded :
          (d : Option Bool × String × WorkloadDag)
          → classify wire (after_submission wire concat node policy read c s d).0 ≡ result
      decoded (some true, id, g) = reply id (submit_workload wire concat node policy read g c s)
      decoded (some false, id, g) = (report-round_trip wire id false _ _ empty_result).0
      decoded (none, id, g) = (report-round_trip wire id false _ _ empty_result).0

  -- A request is answered by a response.
  request_answered :
      (d : Option (TaskId × TaskProfile × List ℕ)) (w : Surroundings) (owns_lock : Bool)
      (s : Orchestrator F)
      → classify wire (handle_decoded wire concat d w owns_lock s).0 ≡ response
  request_answered none w owns_lock s = (response-round_trip wire _ _ _ _ _).0
  request_answered (some (id, profile, input)) w owns_lock s =
      (response-round_trip wire _ _ _ _ _).0

  -- handle_message answers a submission by a message that is classified as a workload result, and
  -- any other bytes by one that is classified as an offload response.
  pub handle_message-answers :
      (bytes : B) (read : Result (ResourceSnapshot F) Error) (w : Surroundings) (c : Course B)
      (s : Orchestrator F)
      → ((classify wire bytes ≡ submission)
          × (classify wire (handle_message wire concat node policy bytes read w c s).0 ≡ result))
        ⊎ ((classify wire bytes ≢ submission)
            × (classify wire (handle_message wire concat node policy bytes read w c s).0
                ≡ response))
  unfolding handle_message handle_offload_request
  handle_message-answers bytes read w c s = by_kind (classify wire bytes) refl
    where
      by_kind :
          (k : WireKind)
          → classify wire bytes ≡ k
          → ((k ≡ submission)
              × (classify wire (dispatched wire concat node policy k bytes read w c s).0 ≡ result))
            ⊎ ((k ≢ submission)
                × (classify wire (dispatched wire concat node policy k bytes read w c s).0
                    ≡ response))
      by_kind submission e = inl (refl, submission_answered bytes read c s)
      by_kind request e =
          inr (λ bad. cc, request_answered (decode_request wire bytes) w c.owns_lock s)
      by_kind unknown e = inr (λ bad. cc, (response-round_trip wire _ _ _ _ _).0)
      by_kind response e = inr (λ bad. cc, (response-round_trip wire _ _ _ _ _).0)
      by_kind result e = inr (λ bad. cc, (response-round_trip wire _ _ _ _ _).0)
