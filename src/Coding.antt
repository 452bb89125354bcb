-- ===== src/Coding.antt =====
-- The coding agent, packages/aihi/code-agent/src/aihi/code_agent: its permission policy, the
-- authority of its subagents, and the framing of its worker protocol.
pub mod Paths
pub mod Permissions
pub mod Subagents
pub mod Framing
