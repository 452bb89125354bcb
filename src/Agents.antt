-- ===== src/Agents.antt =====
-- The subagents of packages/aihi/agent/src/aihi/agent/agents.
pub mod Types
pub mod Act
pub mod Graph
pub mod Sweep
pub mod Validate
