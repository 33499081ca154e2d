-- ===== src/Scheduler/Tests.antt =====
-- Scheduling on small inputs, with whole numbers for floats, and the theorems at these.
use mathlib.Core.List.{Memᴰ}
use edge_orchestrator_ai.Prelude.{
  ℕ, ◌+◌, ◌-◌, ◌*◌, ◌/◌, ◌^◌, ◌≡◌, refl, ltb, arith, zero, suc, ◌≤◌, ◌<◌, map, ap, some, List,
  get_elem?, some_eq, Distinct, elem, String_discrete, string_key, [], ◌∷◌, length, true, false,
}
use edge_orchestrator_ai.Prelude.Words.{add64, sub64, u64_mod}
use edge_orchestrator_ai.Workload.Dag.{get_task}
use edge_orchestrator_ai.Workload.Dag.Kahn.{topological_order}
use edge_orchestrator_ai.Workload.Dag.Tests.{
  in_order, task, diamond, program, diamond-IsWellFormed, diamond-IsClosed,
}
use edge_orchestrator_ai.Scheduler.Choice.{choose}
use edge_orchestrator_ai.Scheduler.Rounds.{each_task}
use edge_orchestrator_ai.Scheduler.Threshold
use edge_orchestrator_ai.Scheduler.Threshold.{
  ThresholdPolicyConfig, PeerState, peer_states, simulated, start, assign_task, best_peer,
  stays_local, sim_mem_pct, place_locally, fall_back, offload,
}
use edge_orchestrator_ai.Scheduler.Threshold.Makespan.{decided_cost, makespan_bounds}
use edge_orchestrator_ai.Scheduler.Threshold.Placement.{
  schedule-Allowed, Allowed, schedule-decides_order,
}
use edge_orchestrator_ai.Scheduler.Threshold.Memory.{schedule-within_memory, offloaded_bytes}
use edge_orchestrator_ai.Core.Floats.{Floats, minimum}
use edge_orchestrator_ai.Scheduler.Greedy
use edge_orchestrator_ai.Scheduler.Greedy.{NodeState, node_state, best_node, score, first_nodes}
use edge_orchestrator_ai.Scheduler.Greedy.Placement.{schedule-places, schedule-assigns_order}
use edge_orchestrator_ai.Core.Types.{
  NodeId, TaskId, ResourceSnapshot, memory_usage_percent, cpu_headroom_percent,
}
use edge_orchestrator_ai.Scheduler.Plan.{
  PeerInfo, ClusterView, Reason, SchedulingDecision, SchedulingPlan, local_capacity,
  threshold_offload, least_loaded, least_loaded_peer,
}

pub ltb_irrefl : (a : ℕ) → ltb a a ≡ false
ltb_irrefl a = ground arith

pub ltb_trans : (a b c : ℕ) → ltb a b ≡ true → ltb b c ≡ true → ltb a c ≡ true
ltb_trans a b c ab bc = ground arith

abbrev pub whole : Floats
whole = record {
  Float = ℕ;
  of_ℕ = λ n. n;
  literal = λ n d. n;
  add = λ a b. a + b;
  sub = λ a b. a - b;
  mul = λ a b. a * b;
  div = λ a b. a / b;
  neg = λ a. 0;
  lt = ltb;
  truncate = λ a. a;
  max_value = 1000;
  lt_irrefl = ltb_irrefl;
  lt_trans = ltb_trans;
}

abbrev pub snapshot_of : NodeId → ℕ → ℕ → ResourceSnapshot ℕ
snapshot_of id cpu memory = record {
  node_id = id;
  timestamp = 0;
  cpu_usage_percent = cpu;
  per_core_cpu_percent = [];
  memory_available_bytes = memory;
  memory_total_bytes = 200;
  cpu_temperature_celsius = 40;
  gpu_temperature_celsius = 0;
  network_rx_bytes_sec = 0;
  network_tx_bytes_sec = 0;
  is_throttled = false;
}

abbrev pub peer : NodeId → ℕ → ℕ → PeerInfo ℕ
peer id cpu memory = record {
  node_id = id;
  resources = snapshot_of id cpu memory;
  address = "10.0.0.2";
  tcp_port = 5201;
  reachable = true;
}

abbrev pub view : ClusterView ℕ
view = record { peers = peer "b" 40 100 ∷ peer "c" 20 50 ∷ [] }

least_loaded_runs : least_loaded_peer whole view ≡ "c"
unfolding least_loaded_peer
least_loaded_runs = refl

abbrev config : ThresholdPolicyConfig ℕ
config = record { cpu_threshold_percent = 30; memory_threshold_percent = 80 }

abbrev pub here : ResourceSnapshot ℕ
here = snapshot_of "a" 10 150

abbrev plan : SchedulingPlan
plan = Threshold.schedule whole config here in_order diamond view 7

-- What the programs of this file compute.
runs : Unit {0}
unfolding program diamond Threshold.schedule simulated each_task start peer_states assign_task
    best_peer choose sim_mem_pct minimum stays_local place_locally fall_back offload add64 sub64
    get_task
runs = tt

abbrev decision : TaskId → NodeId → Reason → SchedulingDecision
decision task node reason = record { task_id = task; assigned_node = node; reason = reason }

threshold_runs :
    plan.decisions
    ≡ decision "a" "a" local_capacity
      ∷ decision "b" "a" local_capacity
      ∷ decision "c" "c" threshold_offload
      ∷ decision "d" "c" threshold_offload
      ∷ []
unfolding runs
threshold_runs = refl

schedule-Allowed_example : Allowed whole config here view (decision "c" "c" threshold_offload)
schedule-Allowed_example =
    schedule-Allowed whole config here view in_order diamond 7 (decision "c" "c" threshold_offload)
      (rw threshold_runs (Memᴰ.tail (Memᴰ.tail (Memᴰ.head refl))))

schedule-decides_order_example :
    map (λ d. d.task_id) plan.decisions ≡ topological_order in_order diamond
schedule-decides_order_example =
    schedule-decides_order whole config here view in_order diamond 7 diamond-IsWellFormed
      diamond-IsClosed

view-sized :
    (i : ℕ) (q : PeerState ℕ)
    → get_elem? (peer_states view.peers) i ≡ some q
    → q.mem_available < u64_mod
unfolding peer_states
view-sized zero q e =
    let same = ap (λ (p : PeerState ℕ). p.mem_available) (some_eq e) in omega (arith, same)
view-sized (suc zero) q e =
    let same = ap (λ (p : PeerState ℕ). p.mem_available) (some_eq e) in omega (arith, same)
view-sized (suc (suc i)) q e = cc

view-Distinct : Distinct (map (λ p. p.id) (peer_states view.peers))
unfolding peer_states elem String_discrete
view-Distinct = (refl, (refl, tt))

schedule-within_memory_example : offloaded_bytes diamond "c" plan.decisions ≤ 50
schedule-within_memory_example =
    schedule-within_memory whole config here view diamond view-sized view-Distinct in_order 7
      (peer "c" 20 50) (Memᴰ.tail (Memᴰ.head refl)) refl

abbrev states : List (PeerState ℕ)
states = peer_states view.peers

abbrev busy : ResourceSnapshot ℕ
busy = snapshot_of "a" 90 150

abbrev greedy_plan : SchedulingPlan
greedy_plan = Greedy.schedule whole busy in_order diamond view 7

greedy_runs :
    greedy_plan.decisions
    ≡ decision "a" "b" least_loaded
      ∷ decision "b" "b" least_loaded
      ∷ decision "c" "b" least_loaded
      ∷ decision "d" "b" least_loaded
      ∷ []
unfolding runs Greedy.schedule Greedy.assigned Greedy.assign_task Greedy.assign_to
    Greedy.first_nodes Greedy.peer_nodes Greedy.best_node Greedy.compute_node_score
    memory_usage_percent cpu_headroom_percent
greedy_runs = refl

schedule-places_example : Greedy.Placement.Allowed whole busy view (decision "b" "b" least_loaded)
schedule-places_example =
    schedule-places whole busy view in_order diamond 7 (decision "b" "b" least_loaded)
      (rw greedy_runs (Memᴰ.tail (Memᴰ.head refl)))

abbrev two_nodes : List (NodeState ℕ)
two_nodes = (first_nodes busy view).nodes

cost_fits : decided_cost diamond plan.decisions < 2 ^ 63
unfolding runs
cost_fits = omega arith

makespan_bounds_example :
    (plan.estimated_makespan ≤ decided_cost diamond plan.decisions)
    × (decided_cost diamond plan.decisions
        ≤ suc (length (peer_states view.peers)) * plan.estimated_makespan)
makespan_bounds_example = makespan_bounds whole config here view diamond in_order 7 cost_fits
