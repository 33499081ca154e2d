-- ===== src/Network/ClusterView/Tests.antt =====
-- The manager on small histories, and the theorems about it at these.
use mathlib.Core.List.{Memᴰ}
use edge_orchestrator_ai.Prelude.{
  ℕ, ◌≡◌, ◌↔◌, refl, true, false, List, [], ◌∷◌, some, none, String_discrete, string_key,
}
use edge_orchestrator_ai.Prelude.HashMap.{find, assign, update, erase}
use edge_orchestrator_ai.Core.Types.{NodeId, ResourceSnapshot}
use edge_orchestrator_ai.Scheduler.Plan.{PeerInfo}
use edge_orchestrator_ai.Network.ClusterView.{
  snapshot, update_resources, update_peer, mark_unreachable, remove_peer, clear,
}
use edge_orchestrator_ai.Network.ClusterView.Refinement.{
  Operation, updates_resources, updates_peer, marks_unreachable, run, apply, specified_run,
  history_refines, snapshot_history,
}

-- Loads as numbers.
abbrev idle : ResourceSnapshot ℕ
idle = record {
  node_id = "b";
  timestamp = 0;
  cpu_usage_percent = 5;
  per_core_cpu_percent = [];
  memory_available_bytes = 100;
  memory_total_bytes = 200;
  cpu_temperature_celsius = 40;
  gpu_temperature_celsius = 0;
  network_rx_bytes_sec = 0;
  network_tx_bytes_sec = 0;
  is_throttled = false;
}

abbrev peer_b : PeerInfo ℕ
peer_b = record {
  node_id = "b";
  resources = idle;
  address = "10.0.0.2";
  tcp_port = 5201;
  reachable = true;
}

abbrev history : List (Operation ℕ)
history = updates_peer peer_b ∷ updates_resources "c" idle ∷ marks_unreachable "c" ∷ []

program : Unit {0}
unfolding find assign update erase String_discrete snapshot update_resources update_peer
    mark_unreachable remove_peer clear run apply
program = tt

snapshot_runs : (snapshot (run history [])).peers ≡ peer_b ∷ []
unfolding program
snapshot_runs = refl

history_refines_example : find "b" (run history []) ≡ specified_run history (λ _. none) "b"
history_refines_example = history_refines history "b"

snapshot_history_example : Memᴰ peer_b (snapshot (run history [])).peers ↔ (
    (id : NodeId) × (specified_run history (λ _. none) id ≡ some peer_b)
    × (peer_b.reachable ≡ true))
snapshot_history_example = snapshot_history history peer_b

abbrev updates : List (Operation ℕ)
updates = updates_peer peer_b ∷ updates_resources "c" idle ∷ []
