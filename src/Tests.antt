-- ===== src/Tests.antt =====
-- The theorems at concrete inputs.
mod Machine
mod Disk
mod Writes
mod Streams
mod Readers
mod Formats
mod Reads
mod Locking
mod Contests
mod Sidecars
mod Detection
mod Doctors
