-- ===== src/Sys.antt =====
-- The part of the operating system and of Python that the package runs on.
pub mod Errors
pub mod Fs
pub mod World
pub mod Exec
pub mod Calls
pub mod Logic
pub mod Method
pub mod Files
