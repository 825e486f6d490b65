-- ===== src/Pfs.antt =====
-- kernel/src/main.rs: RYMFS5, the persistent file system.
pub mod Directory
pub mod Disk
pub mod Extents
pub mod Header
pub mod Paths
mod Samples
mod Tests
