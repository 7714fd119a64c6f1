-- ===== src/Campaign.antt =====
-- Update campaigns: an update of many nodes in batches, one canary first
-- (internal/server/db/node_update_campaigns.go, internal/server/api/update_campaigns.go).
pub mod Sql
pub mod Sync
pub mod Reconcile
pub mod Admin
pub mod Create
pub mod Plan
pub mod Batches
pub mod Snapshot
pub mod Visits
pub mod Members
pub mod Unmoved
pub mod Progress
pub mod Ordered
pub mod Advance
pub mod Runs
pub mod Steps
pub mod Covers
pub mod Loops
pub mod Safe
pub mod Kept
pub mod Canary
pub mod BatchSize
mod Examples
