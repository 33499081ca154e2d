-- ===== src/ResourceMonitor/Tests.antt =====
-- The mock monitor on a script of two snapshots.
use edge_orchestrator_ai.Prelude.{ℕ, List, [], ◌∷◌}
use edge_orchestrator_ai.Core.Types.{ResourceSnapshot}
use edge_orchestrator_ai.Scheduler.Tests.{snapshot_of}
use edge_orchestrator_ai.ResourceMonitor.MockMonitor.Script.{}

abbrev script : List (ResourceSnapshot ℕ)
script = snapshot_of "x" 80 100 ∷ []
