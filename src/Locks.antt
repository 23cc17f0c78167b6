-- ===== src/Locks.antt =====
-- src/safeatomic/_locks.py: cooperative locks by a sidecar that is created exclusively.
pub mod Payload
pub mod Info
pub mod Acquire
pub mod Release
pub mod Frame
pub mod Exclusion
pub mod Ownership
pub mod Stale
pub mod RoundTrip
pub mod Cycle
pub mod Waiting
pub mod Contest
