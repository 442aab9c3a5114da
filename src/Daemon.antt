-- ===== src/Daemon.antt =====
-- The crate `kalpakdb` (crates/kalpakdb/src): the daemon around the storage and the control plane.
pub mod Retention
pub mod Admission
mod Tests
