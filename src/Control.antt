-- ===== src/Control.antt =====
-- The crate `kalpak-control` (crates/kalpak-control/src): the replicated control plane.
pub mod Types
pub mod Leases
pub mod Counts
pub mod Commit
pub mod Binding
pub mod Machine
pub mod Frame
pub mod Fencing
pub mod Retry
pub mod Log
pub mod Snapshot
pub mod Invariant
pub mod Status
pub mod Refs
mod Tests
mod SnapshotTests
mod LogTests
mod FenceTests
