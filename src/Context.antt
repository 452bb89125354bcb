-- ===== src/Context.antt =====
-- The context window of packages/aihi/agent/src/aihi/agent/context.
pub mod Grouping
pub mod Pressure
pub mod Compaction
pub mod Eviction
