-- ===== src/Workload.antt =====
-- src/workload: the task graph.
pub mod Dag
