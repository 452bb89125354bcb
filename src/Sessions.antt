-- ===== src/Sessions.antt =====
-- packages/aihi/agent/src/aihi/agent/sessions: the event store, the projections of an event log,
-- and the session aggregate on top of them.
pub mod Store
pub mod Projection
pub mod Session
pub mod Named
pub mod Sync
pub mod Replay
pub mod Reload
pub mod Grants
pub mod Repair
pub mod Refresh
