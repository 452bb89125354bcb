-- ===== src/Policy.antt =====
-- packages/aihi/agent/src/aihi/agent/policy: leases, approvals, their replay, and the default
-- engine. The tests on times take the current instant `now`.
pub mod Leases
pub mod Approvals
pub mod Authorization
pub mod Engine
pub mod Roundtrip
