-- ===== src/Orchestrator/Tests.antt =====
-- A node and its peer on small inputs, and the theorems about the codec and the handlers at these.
use edge_orchestrator_ai.Prelude.{
  one_if, ℕ, ◌+◌, ◌≤◌, ◌≡◌, ◌≢◌, ◌⊎◌, ◌↔◌, refl, Bool, true, false, List, [], ◌∷◌, Option, some,
  String, arith, elem, string_key, String_discrete,
}
use edge_orchestrator_ai.Prelude.HashMap.{keys, find}
use edge_orchestrator_ai.Prelude.Words.{add64, sub64}
use edge_orchestrator_ai.Core.Result.{ok, err}
use edge_orchestrator_ai.Core.Types.{TaskProfile}
use edge_orchestrator_ai.Executor.MemoryPool.{allocate, align_up}
use edge_orchestrator_ai.Executor.TaskRunner.{Surroundings, execute}
use edge_orchestrator_ai.Workload.Dag.{WorkloadDag, empty_dag, get_task, task_count, is_completed}
use edge_orchestrator_ai.Workload.Dag.Graph.{IsWellFormed, IsClosed, IsAcyclic}
use edge_orchestrator_ai.Workload.Dag.Kahn.{topological_order}
use edge_orchestrator_ai.Workload.Dag.Tests.{in_order, program}
use edge_orchestrator_ai.Scheduler.Plan.{local_capacity, least_loaded}
use edge_orchestrator_ai.Scheduler.Optimizer.{Sorting, Random}
use edge_orchestrator_ai.Orchestrator.EndToEnd.{policy, handle_workload_submission-launches_all}
use edge_orchestrator_ai.Scheduler.Tests.{whole, snapshot_of, peer}
use edge_orchestrator_ai.Network.ClusterView.{peer_info, snapshot}
use edge_orchestrator_ai.Orchestrator.Messages.{
  Envelope, TaskSpec, WorkloadSubmission, workload_submission, OrchestrationResult,
}
use edge_orchestrator_ai.Orchestrator.OffloadCodec.{
  Serializer, Report, response, submission, result, classify, encode_request, decode_request,
  encode_response, decode_response, encode_workload_result, decode_workload_result,
  decode_submission,
}
use edge_orchestrator_ai.Orchestrator.OffloadCodec.RoundTrip.{codec_round_trips}
use edge_orchestrator_ai.Orchestrator.OffloadCodec.Submissions.{
  edges, asked, decode_submission-accepts,
}
use edge_orchestrator_ai.Orchestrator.Offloading.{
  Orchestrator, Client, run_task, offload_to_peer, message_of,
}
use edge_orchestrator_ai.Orchestrator.Lifecycle.{
  Command, starts, stops, commands, make_lifecycle, start, stop, commands-balanced,
}
use edge_orchestrator_ai.Orchestrator.Policies.{SchedulingPolicy}
use edge_orchestrator_ai.Orchestrator.Workloads.{launch, take_job, run_job, begin_job, run_jobs}
use edge_orchestrator_ai.Orchestrator.Submission.{
  Course, handle_workload_submission, handle_message, submit_workload, empty_result,
}
use edge_orchestrator_ai.Orchestrator.Remote.{offload_to_peer-executes, handle_message-answers}
use edge_orchestrator_ai.Orchestrator.Counts.{submit_workload-counts, placeable, ended_jobs}

abbrev Wire : Type 0
Wire = Envelope (Unit {0})

-- The wire carries the messages as they are.
abbrev plain : Serializer Wire (Unit {0})
plain = record { serialize = λ e. e; parse = λ e. some e; parse-serialize = λ e. refl }

abbrev first : String → String → String
first s t = s

abbrev small : TaskProfile
small = record { compute_cost = 10; memory_bytes = 8; input_bytes = 1; output_bytes = 1 }

abbrev quick : Surroundings
quick = record { start = 5; end = 9; stopped_at_state = false; stopped_at_message = false }

abbrev node : Orchestrator ℕ
node = record {
  memory_pool = record { capacity = 64; offset = 0 };
  peers = ("b", peer "b" 40 100) ∷ [];
  advertised = snapshot_of "a" 10 100;
  metrics = [];
}

abbrev spec : String → List String → TaskSpec
spec id deps = record {
  task_id = id;
  name = id;
  profile = record { compute_cost_us = 10; memory_bytes = 8; input_bytes = 1; output_bytes = 1 };
  dependencies = deps;
}

abbrev chain : WorkloadSubmission
chain = record { workload_id = "w"; tasks = spec "x" [] ∷ spec "y" ("x" ∷ []) ∷ [] }

-- A task that waits for one that does not exist.
abbrev ghostly : WorkloadSubmission
ghostly = record { workload_id = "w"; tasks = spec "x" ("ghost" ∷ []) ∷ [] }

abbrev decoded : WorkloadSubmission → Option Bool × String × WorkloadDag
decoded sub = decode_submission plain (workload_submission sub) "" empty_dag

-- One task stays and one goes to the peer.
abbrev both : SchedulingPolicy ℕ
both g local cluster now = record {
  decisions =
      record { task_id = "x"; assigned_node = "a"; reason = local_capacity }
      ∷ record { task_id = "y"; assigned_node = "b"; reason = least_loaded }
      ∷ [];
  estimated_makespan = 20;
  computed_at = now;
}

abbrev refusing : Client Wire
refusing = record {
  connect = λ address port. err (record { message = "refused" });
  send = λ e. ok tt;
  receive = λ e. ok e;
}

abbrev course : Course Wire
course = record {
  now = 100;
  begun =
      (1, true, record { surroundings = quick; client = refusing })
      ∷ (0, true, record { surroundings = quick; client = refusing })
      ∷ (0, true, record { surroundings = quick; client = refusing })
      ∷ [];
  owns_lock = true;
  total_duration = 40;
}

-- The peer's handler is at the other end.
abbrev reply : Wire → Wire
reply e = (handle_message plain first "b" both e (ok (snapshot_of "b" 0 100)) quick course node).0

abbrev connected : Client Wire
connected = record {
  connect = λ address port. ok tt;
  send = λ e. ok tt;
  receive = λ e. ok (reply e);
}

-- A submission with such a task is accepted, and no order has the task.
ghost_accepted :
    ((decoded ghostly).0 ≡ some true) × (topological_order in_order (decoded ghostly).2 ≡ [])
unfolding decode_submission program
ghost_accepted = (refl, refl)

codec_round_trips_example :
    (decode_request plain (encode_request plain "x" small (1 ∷ 2 ∷ []))
      ≡ some ("x", small, 1 ∷ 2 ∷ []))
    × (decode_response plain (encode_response plain true 4 8 "" [])
        ≡ some
            (record { success = true; duration = 4; peak_memory = 8; error_msg = ""; output = [] }))
    × (decode_workload_result plain
          (encode_workload_result plain "w" false "no" empty_result)
          empty_result
        ≡ some (record {
          workload_id = "w";
          accepted = false;
          error_msg = "no";
          result = empty_result;
        }))
codec_round_trips_example =
    codec_round_trips plain "x" small (1 ∷ 2 ∷ [])
      (record { success = true; duration = 4; peak_memory = 8; error_msg = ""; output = [] })
      (record { workload_id = "w"; accepted = false; error_msg = "no"; result = empty_result })

chain_known : (d : String) → elem d ("x" ∷ []) ≡ true → elem d ("x" ∷ "y" ∷ []) ≡ true
unfolding elem
chain_known d h = ground arith

none_known : (d : String) → elem d [] ≡ true → elem d ("x" ∷ "y" ∷ []) ≡ true
unfolding elem
none_known d h = cc

decode_submission-accepts_example :
    ((decoded chain).1 ≡ "w")
    × IsWellFormed (decoded chain).2
    × IsClosed (decoded chain).2
    × ((v : String) → elem v ("x" ∷ "y" ∷ []) ≡ true → elem v (keys (decoded chain).2.tasks) ≡ true)
    × ((u v : String) → edges (decoded chain).2 u v ≡ asked chain.tasks u v)
    × (((decoded chain).0 ≡ some true)
        ↔ (((decoded chain).2.tasks ≢ []) × IsAcyclic (decoded chain).2))
decode_submission-accepts_example =
    decode_submission-accepts plain (workload_submission chain) chain "" refl
      (none_known, (chain_known, tt))

handle_message-answers_example :
    ((classify plain (workload_submission chain) ≡ submission)
      × (classify plain (reply (workload_submission chain)) ≡ result))
    ⊎ ((classify plain (workload_submission chain) ≢ submission)
        × (classify plain (reply (workload_submission chain)) ≡ response))
handle_message-answers_example =
    handle_message-answers plain first "b" both (workload_submission chain)
      (ok (snapshot_of "b" 0 100)) quick course node

address_given : (peer "b" 40 100).address ≢ ""
address_given e = cc

b_known : peer_info "b" node.peers ≡ some (peer "b" 40 100)
unfolding peer_info find String_discrete
b_known = refl

offload_to_peer-executes_example :
    offload_to_peer plain first "x" small "b" connected node ≡ record {
      transport_ok = true;
      task_ok = is_completed (run_task "x" small quick node).0.final_state;
      duration = (run_task "x" small quick node).0.actual_duration;
      error = message_of (run_task "x" small quick node).0.error_message;
    }
offload_to_peer-executes_example =
    offload_to_peer-executes plain first "b" both "x" small "b" connected node node
      (peer "b" 40 100) (ok (snapshot_of "b" 0 100)) quick course b_known address_given
      (λ e. omega (arith, e)) refl refl refl

submit_workload-counts_example :
    (r : OrchestrationResult) × ((submit_workload plain first "a" both
        (ok (snapshot_of "a" 0 100))
        (decoded chain).2
        course
        node).0
      ≡ ok r)
    × (r.plan ≡ both (decoded chain).2 (snapshot_of "a" 0 100) (snapshot node.peers) 100)
    × (r.local_tasks + r.offloaded_tasks ≡ placeable (decoded chain).2 r.plan.decisions)
    × (r.completed_tasks + r.failed_tasks
        ≡ ended_jobs course.begun (r.local_tasks + r.offloaded_tasks))
    × (r.completed_tasks + r.failed_tasks ≤ r.local_tasks + r.offloaded_tasks)
    × (r.offload_fallbacks ≤ r.offloaded_tasks)
submit_workload-counts_example =
    submit_workload-counts plain first "a" both (snapshot_of "a" 0 100) (decoded chain).2 course
      node

-- The task for the refusing peer runs here, and the third name is of no job.
counts_run :
    (submit_workload plain first "a" both
      (ok (snapshot_of "a" 0 100))
      (decoded chain).2
      course
      node).0
    ≡ ok (record {
      plan = both (decoded chain).2 (snapshot_of "a" 0 100) (snapshot node.peers) 100;
      local_tasks = 1;
      offloaded_tasks = 1;
      completed_tasks = 2;
      failed_tasks = 0;
      offload_fallbacks = 1;
      total_duration = 40;
    })
unfolding submit_workload launch take_job run_job run_jobs run_task execute allocate align_up
    offload_to_peer peer_info decode_submission program add64 sub64 get_task encode_request
counts_run = refl

-- The task that the peer refused has begun here when the wait ends: its fallback is counted, and no end.
fallback_begun :
    (submit_workload plain first "a" both
      (ok (snapshot_of "a" 0 100))
      (decoded chain).2
      (record course {
        begun = (1, false, record { surroundings = quick; client = refusing }) ∷ [];
      })
      node).0
    ≡ ok (record {
      plan = both (decoded chain).2 (snapshot_of "a" 0 100) (snapshot node.peers) 100;
      local_tasks = 1;
      offloaded_tasks = 1;
      completed_tasks = 0;
      failed_tasks = 0;
      offload_fallbacks = 1;
      total_duration = 40;
    })
unfolding submit_workload launch take_job begin_job run_jobs run_task execute allocate align_up
    offload_to_peer peer_info decode_submission program add64 sub64 get_task encode_request
fallback_begun = refl

-- No sort, and draws that give the lower bound.
abbrev unsorted : Sorting
unsorted = record { sort = λ less ids. ids; count-sort = λ less ids id. refl }

lowest : (a b : ℕ) → a ≤ b → (a ≤ a) × (a ≤ b)
lowest a b h = (omega arith, h)

abbrev least : Random
least = record {
  Rng = Unit {0};
  seeded = λ seed. tt;
  uniform = λ a b rng. (a, rng);
  uniform_bounds = λ a b rng h. lowest a b h;
}

abbrev greedy : SchedulingPolicy ℕ
greedy =
    policy plain first whole unsorted least in_order "greedy"
      (record { cpu_threshold_percent = 80; memory_threshold_percent = 80 })
      (record { max_iterations = 1; communication_weight = 0 })

chain_accepted : (decoded chain).0 ≡ some true
unfolding decode_submission program
chain_accepted = refl

handle_workload_submission-launches_all_example :
    (report : Report) × (decode_workload_result plain
        (handle_workload_submission plain first "a" greedy
          (workload_submission chain)
          (ok (snapshot_of "a" 0 100))
          course
          node).0
        empty_result
      ≡ some report)
    × (report.accepted ≡ true)
    × (report.workload_id ≡ "w")
    × (report.result.local_tasks + report.result.offloaded_tasks ≡ task_count (decoded chain).2)
handle_workload_submission-launches_all_example =
    handle_workload_submission-launches_all plain first whole unsorted least in_order "greedy"
      (record { cpu_threshold_percent = 80; memory_threshold_percent = 80 })
      (record { max_iterations = 1; communication_weight = 0 }) (workload_submission chain) chain
      "a" (snapshot_of "a" 0 100) course node refl (none_known, (chain_known, tt)) chain_accepted

-- The second start is refused, the port cannot be listened on the next time, and the second stop does nothing.
abbrev lifetime : List Command
lifetime =
    starts (ok tt)
    ∷ starts (ok tt)
    ∷ stops
    ∷ stops
    ∷ starts (err (record { message = "in use" }))
    ∷ []

-- The callbacks of the first start are still registered in the second.
lifetime_runs : commands lifetime make_lifecycle ≡ record {
  running = true;
  monitor = record { start_count = 2; stop_count = 1 };
  discovered_callbacks = 2;
  lost_callbacks = 2;
  server = record { start_count = 1; stop_count = 1 };
  discovery = record { start_count = 2; stop_count = 1 };
  resource_thread = record { start_count = 2; stop_count = 1 };
}
unfolding commands start stop
lifetime_runs = refl

commands-balanced_example :
    ((commands lifetime make_lifecycle).monitor.start_count
      ≡ (commands lifetime make_lifecycle).monitor.stop_count
        + one_if (commands lifetime make_lifecycle).running)
    × ((commands lifetime make_lifecycle).discovery.start_count
        ≡ (commands lifetime make_lifecycle).discovery.stop_count
          + one_if (commands lifetime make_lifecycle).running)
    × ((commands lifetime make_lifecycle).resource_thread.start_count
        ≡ (commands lifetime make_lifecycle).resource_thread.stop_count
          + one_if (commands lifetime make_lifecycle).running)
    × ((commands lifetime make_lifecycle).server.start_count
        ≤ (commands lifetime make_lifecycle).server.stop_count
          + one_if (commands lifetime make_lifecycle).running)
    × ((commands lifetime make_lifecycle).server.stop_count
        ≡ (commands lifetime make_lifecycle).monitor.stop_count)
    × ((commands lifetime make_lifecycle).discovered_callbacks
        ≡ (commands lifetime make_lifecycle).monitor.start_count)
    × ((commands lifetime make_lifecycle).lost_callbacks
        ≡ (commands lifetime make_lifecycle).monitor.start_count)
commands-balanced_example = commands-balanced lifetime
