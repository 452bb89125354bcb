-- ===== src/Runtime.antt =====
-- The run of an agent, packages/aihi/agent/src/aihi/agent/runtime.
pub mod State
pub mod Lifecycle
pub mod Coordinator
pub mod Opening
pub mod ToolCalls
pub mod Approvals
