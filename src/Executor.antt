-- ===== src/Executor.antt =====
-- src/executor: the bounded queue of tasks, the arena that they take their scratch memory from, and the
-- runner of one task.
pub mod MemoryPool
pub mod TaskQueue
pub mod TaskRunner
mod Tests
