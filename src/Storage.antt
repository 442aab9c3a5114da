-- ===== src/Storage.antt =====
-- The crate `kalpak-storage` (crates/kalpak-storage/src): what is kept on the disk of a node.
pub mod Text
pub mod Manifest
pub mod Segment
pub mod Store
pub mod Tiered
mod Tests
mod SegmentTests
mod StoreTests
mod TieredTests
