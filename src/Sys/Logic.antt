-- ===== src/Sys/Logic.antt =====
-- Rules for what an action keeps and for what it ends in, whatever the calls do.
pub mod Keeps
pub mod Ends
pub mod Move
pub mod Returns
pub mod Clock
pub mod Exists
