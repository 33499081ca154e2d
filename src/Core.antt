-- ===== src/Core.antt =====
-- src/core: the vocabulary types, floating point as the code uses it, and Result.
pub mod Types
pub mod Floats
pub mod Result
