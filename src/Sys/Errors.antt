-- ===== src/Sys/Errors.antt =====
-- The error numbers that the source tells apart, and the exceptions of src/safeatomic/_exceptions.py
-- beside the built-in ones that the source raises. Messages are left out.
use safeatomic.Prelude.{ℕ, Str, Bool, true, false}
use safeatomic.Sys.Fs.{FilePath}

pub data Errno : Type 0 where
  enoent eexist eacces eperm exdev ebadf : Errno
  other_errno : ℕ → Errno

-- `FileNotFoundError`, `FileExistsError` and `PermissionError` are `os_error` at their numbers.
pub data Exception : Type 0 where
  os_error : Errno → Exception
  value_error unicode_error runtime_error type_error key_error attribute_error : Exception
  decode_error import_error : Exception
  safe_atomic_error lock_error unsupported_environment_error : Exception
  checksum_mismatch_error : FilePath → Str → Str → Exception
  cross_device_atomicity_error : FilePath → FilePath → Exception

-- `isinstance(exc, SafeAtomicError)`
unfoldable pub is_safe_atomic_error : Exception → Bool
is_safe_atomic_error safe_atomic_error = true
is_safe_atomic_error lock_error = true
is_safe_atomic_error unsupported_environment_error = true
is_safe_atomic_error (checksum_mismatch_error p expected actual) = true
is_safe_atomic_error (cross_device_atomicity_error src dst) = true
is_safe_atomic_error _ = false

unfoldable pub is_os_error : Exception → Bool
is_os_error (os_error e) = true
is_os_error _ = false
