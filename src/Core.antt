-- ===== src/Core.antt =====
-- The crate `kalpak-core` (crates/kalpak-core/src): identifiers, cache keys, signed messages.
pub mod Key
pub mod Signing
mod Tests
