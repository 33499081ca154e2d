-- ===== src/ResourceMonitor.antt =====
-- src/resource_monitor: where a node's snapshots of itself come from.
pub mod MockMonitor
mod Tests
