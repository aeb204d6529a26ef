-- ===== src/Runtime.antt =====
-- The synchronization runtime (src/runtime.rs): its persisted state and what it derives from it.
pub mod State
pub mod Graph
pub mod Heads
pub mod Remote
pub mod Action
pub mod Refresh
pub mod Codecs
pub mod Snapshots
pub mod Publish
pub mod Inventory
pub mod Progress
pub mod Content
pub mod Plan
pub mod Apply
pub mod Upload
pub mod Execute
pub mod Reconcile
pub mod Resolve
pub mod Rollback
pub mod Maintain
pub mod Stateless
pub mod Additive
pub mod Session
pub mod Queries
mod Tests
mod Examples
mod Scenarios
