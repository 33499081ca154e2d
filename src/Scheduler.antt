-- ===== src/Scheduler.antt =====
-- src/scheduler: what a policy sees and what it decides.
pub mod Plan
pub mod Choice
pub mod Rounds
pub mod Reachable
pub mod Threshold
pub mod Greedy
pub mod Optimizer
pub mod Tests
