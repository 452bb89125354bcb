-- ===== src/Examples.antt =====
-- Tests at concrete inputs, and the theorems applied to them.
mod Sample
mod Policy
mod Stores
mod Sessions
mod Grants
mod Tasks
mod Coding
mod Hooks
mod Runs
mod Calls
mod Contexts
mod Schema
