-- ===== src/Orchestrator.antt =====
-- src/orchestrator: the wire format of the offload protocol and the facade that uses the other parts.
pub mod Messages
pub mod OffloadCodec
pub mod Offloading
pub mod Policies
pub mod Lifecycle
pub mod Workloads
pub mod Submission
pub mod Remote
pub mod Counts
pub mod Launches
pub mod EndToEnd
mod Tests
