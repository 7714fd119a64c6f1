-- ===== src/Operation.antt =====
-- Node operations: the work that an administrator queues for a node and the node's agent claims,
-- renews and reports (internal/server/db/node_operations.go).
pub mod Sql
pub mod Validate
pub mod Calls
pub mod Methods
pub mod Report
pub mod Steps
pub mod Facts
pub mod OneActive
pub mod Frozen
pub mod Stuck
pub mod Log
pub mod Replay
pub mod Lease
pub mod Keeps
pub mod Unlogged
pub mod Recorded
pub mod Samples
mod Examples
