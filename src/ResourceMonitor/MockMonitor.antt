-- ===== src/ResourceMonitor/MockMonitor.antt =====
-- src/resource_monitor/monitor.hpp and mock_monitor.cpp: MockMonitor, which gives one snapshot over
-- and over, or a scripted sequence of them. The clock's time is an argument of read.
pub mod Script
use edge_orchestrator_ai.Prelude.{
  ℕ, zero, suc, ◌*◌, Bool, true, false, List, [], ◌∷◌, ◌++◌, Option, none, some, get_elem?,
  if◌then◌else◌,
}
use edge_orchestrator_ai.Core.Floats.{Floats}
use edge_orchestrator_ai.Core.Types.{NodeId, Timestamp, ResourceSnapshot}
use edge_orchestrator_ai.Core.Result.{Result, ok, Error, make_error}

pub record MockMonitor (F : Type 0) : Type 0 where
  pub node_id : NodeId
  pub sequence : List (ResourceSnapshot F)
  pub index : ℕ
  pub static_snapshot : ResourceSnapshot F
  pub use_static : Bool

abbrev pub make_mock_monitor : (f : Floats) → NodeId → MockMonitor f.Float
make_mock_monitor f node_id =
    let load = f.literal 25 1 in
    record {
      node_id = node_id;
      sequence = [];
      index = 0;
      static_snapshot = record {
        node_id = node_id;
        timestamp = 0;
        cpu_usage_percent = load;
        per_core_cpu_percent = load ∷ load ∷ load ∷ load ∷ [];
        memory_available_bytes = 2 * 1024 * 1024 * 1024;
        memory_total_bytes = 4 * 1024 * 1024 * 1024;
        cpu_temperature_celsius = f.literal 45 1;
        gpu_temperature_celsius = f.literal 0 1;
        network_rx_bytes_sec = 0;
        network_tx_bytes_sec = 0;
        is_throttled = false;
      };
      use_static = true;
    }

module _ {F : Type 0} where
  abbrev pub stamped : Timestamp → ResourceSnapshot F → ResourceSnapshot F
  stamped now snap = record snap { timestamp = now }

  abbrev pub renamed : NodeId → ResourceSnapshot F → ResourceSnapshot F
  renamed node_id snap = record snap { node_id = node_id }

  abbrev pub read_next :
      Timestamp
      → Option (ResourceSnapshot F)
      → MockMonitor F
      → Result (ResourceSnapshot F) Error × MockMonitor F
  read_next now none s = (make_error "Mock sequence exhausted", s)
  read_next now (some snap) s = (ok (stamped now snap), record s { index = suc s.index })

  unfoldable pub read :
      Timestamp → MockMonitor F → Result (ResourceSnapshot F) Error × MockMonitor F
  read now s =
      let snap = stamped now s.static_snapshot in
      if s.use_static
      then (ok snap, record s { static_snapshot = snap })
      else read_next now (get_elem? s.sequence s.index) s

  -- sequence_[index_ - 1], or a default where nothing was read
  abbrev pub last_read :
      {B : Type 0} → (ResourceSnapshot F → B) → B → ℕ → List (ResourceSnapshot F) → B
  last_read field default zero sequence = default
  last_read field default (suc i) sequence = elim (get_elem? sequence i) [
    | some snap ↦ field snap
    | none ↦ default
  ]

  abbrev pub sensed : {B : Type 0} → (ResourceSnapshot F → B) → B → MockMonitor F → B
  sensed field default s =
      if s.use_static then field s.static_snapshot else last_read field default s.index s.sequence

  -- zero_float is 0.0f.
  abbrev pub cpu_usage : F → MockMonitor F → F
  cpu_usage zero_float s = sensed (λ snap. snap.cpu_usage_percent) zero_float s

  abbrev pub memory_available : MockMonitor F → ℕ
  memory_available s = sensed (λ snap. snap.memory_available_bytes) 0 s

  abbrev pub is_throttled : MockMonitor F → Bool
  is_throttled s = sensed (λ snap. snap.is_throttled) false s

  unfoldable pub push_snapshot : ResourceSnapshot F → MockMonitor F → MockMonitor F
  push_snapshot snapshot s = record s {
    use_static = false;
    sequence = s.sequence ++ renamed s.node_id snapshot ∷ [];
  }

  abbrev pub set_static_snapshot : ResourceSnapshot F → MockMonitor F → MockMonitor F
  set_static_snapshot snapshot s = record s {
    use_static = true;
    static_snapshot = renamed s.node_id snapshot;
  }

  abbrev pub set_cpu : F → MockMonitor F → MockMonitor F
  set_cpu percent s = record s {
    static_snapshot = record s.static_snapshot {
      cpu_usage_percent = percent;
      per_core_cpu_percent = percent ∷ percent ∷ percent ∷ percent ∷ [];
    };
  }

  abbrev pub set_memory : ℕ → ℕ → MockMonitor F → MockMonitor F
  set_memory available total s = record s {
    static_snapshot = record s.static_snapshot {
      memory_available_bytes = available;
      memory_total_bytes = total;
    };
  }

  abbrev pub set_throttled : Bool → MockMonitor F → MockMonitor F
  set_throttled throttled s = record s {
    static_snapshot = record s.static_snapshot { is_throttled = throttled };
  }
