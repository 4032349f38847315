-- ===== src/Storage.antt =====
-- internal/controller/storage: which StorageClass is taken, what of a bound volume is recorded,
-- and the read-only volume that an engine mounts.
pub mod Discovery
pub mod Backend
pub mod ReadOnly
pub mod Node
mod Tests
