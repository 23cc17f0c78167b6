-- ===== src/Doctor.antt =====
-- src/safeatomic/_doctor.py: what a deployment can rely on.
pub mod Report
pub mod Probe
pub mod Run
pub mod Frame
pub mod Bystander
pub mod Require
