-- ===== src/Environment.antt =====
-- The types of src/safeatomic/_capabilities.py.
use safeatomic.Prelude.{Str, Option}

pub data Capability : Type 0 where
  supported unsupported unknown_capability : Capability

pub data Platform : Type 0 where
  linux darwin freebsd openbsd netbsd windows_platform unknown_platform : Platform

pub data FilesystemClass : Type 0 where
  local_posix_persistent local_posix_memory network windows object_store unknown : FilesystemClass

-- `symlink_policy` has the one value "unspecified" and is left out.
pub record Environment : Type 0 where
  pub platform : Platform
  pub filesystem : Option Str
  pub filesystem_class : FilesystemClass
  pub supports_fsync_file : Capability
  pub supports_fsync_dir : Capability
  pub supports_atomic_replace : Capability
