-- ===== src/Io.antt =====
-- src/safeatomic/_io_core.py, by its parts.
pub mod Safety
pub mod Fsync
pub mod Write
pub mod Writer
pub mod Verify
pub mod Reader
pub mod Read
pub mod Move
pub mod Frame
pub mod Staged
pub mod Visibility
pub mod Durability
pub mod Promises
pub mod Exclusion
pub mod Verified
pub mod NoOverwrite
pub mod Gate
pub mod Returns
pub mod Bystander
