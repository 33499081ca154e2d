-- ===== src/Core/Types.antt =====
-- src/core/types.hpp. A Duration is an int64_t count of microseconds; here it is the 64-bit word of that
-- count, so that one from 2 ^ 63 on stands for a negative count. The threshold policy reads and adds words.
-- The other policies and the timers read each Duration as the count that it is when it is not negative, and
-- their sums do not wrap around. A timestamp is a number on the clock that reads it.
use edge_orchestrator_ai.Prelude.{ℕ, Bool, List, String, if◌then◌else◌, ◌==◌}
use edge_orchestrator_ai.Prelude.Words.{sub64}
use edge_orchestrator_ai.Core.Floats.{Floats}

abbrev pub NodeId : Type 0
NodeId = String

abbrev pub TaskId : Type 0
TaskId = String

abbrev pub Duration : Type 0
Duration = ℕ

abbrev pub Timestamp : Type 0
Timestamp = ℕ

-- F is the type of float.
pub record ResourceSnapshot (F : Type 0) : Type 0 where
  pub node_id : NodeId
  pub timestamp : Timestamp
  pub cpu_usage_percent : F
  pub per_core_cpu_percent : List F
  pub memory_available_bytes : ℕ
  pub memory_total_bytes : ℕ
  pub cpu_temperature_celsius : F
  pub gpu_temperature_celsius : F
  pub network_rx_bytes_sec : ℕ
  pub network_tx_bytes_sec : ℕ
  pub is_throttled : Bool

module _ (f : Floats) where
  open f use {Float, of_ℕ, literal, sub, mul, div}

  unfoldable pub memory_usage_percent : ResourceSnapshot Float → Float
  memory_usage_percent r =
      if r.memory_total_bytes == 0
      then literal 0 1
      else div (mul (literal 100 1) (of_ℕ (sub64 r.memory_total_bytes r.memory_available_bytes)))
          (of_ℕ r.memory_total_bytes)

  unfoldable pub cpu_headroom_percent : ResourceSnapshot Float → Float
  cpu_headroom_percent r = sub (literal 100 1) r.cpu_usage_percent

pub record TaskProfile : Type 0 where
  pub compute_cost : Duration
  pub memory_bytes : ℕ
  pub input_bytes : ℕ
  pub output_bytes : ℕ

pub data TaskState : Type 0 where
  pending ready scheduled running completed failed : TaskState

pub to_string : TaskState → String
to_string pending = "pending"
to_string ready = "ready"
to_string scheduled = "scheduled"
to_string running = "running"
to_string completed = "completed"
to_string failed = "failed"
