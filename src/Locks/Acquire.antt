-- ===== src/Locks/Acquire.antt =====
-- `try_acquire_lock`.
use safeatomic.Prelude.{
  ℕ, zero, suc, ◌+◌, ℤ, pos, negsuc, Bool, true, false, ◌&&◌, Option, none, some, Str, Bytes, codes,
  ltb, if◌then◌else◌,
}
use safeatomic.Prelude.Eq.{nat_eq, list_eq}
use safeatomic.Constants.{SafetyPolicy, unrecognised}
use safeatomic.Sys.Errors.{
  Exception, eexist, os_error, value_error, unicode_error, lock_error, is_os_error,
}
use safeatomic.Sys.Fs.{FilePath}
use safeatomic.Sys.Exec.{Exec, pure, raise, try_except, finally, suppress_os, when, ◌>>=◌, ◌>>◌}
use safeatomic.Sys.Calls.{open_excl, write, close, unlink, sleep, now}
use safeatomic.Host.{Host}
use safeatomic.Paths.{lock_path}
use safeatomic.Locks.Payload.{build_payload}

unfoldable pub validate_safety : SafetyPolicy → Exec (Unit {0})
validate_safety (unrecognised word) = raise value_error
validate_safety _ = pure tt

-- What opening the sidecar came to.
pub data Opened : Type 0 where
  contended : Opened
  opened : ℕ → Opened

-- `except FileExistsError: continue`; every other `OSError` becomes a `LockError`.
abbrev pub open_failed : Exception → Exec Opened
open_failed (os_error eexist) = pure contended
open_failed (os_error e) = raise lock_error
open_failed e = raise e

unfoldable pub open_lock : FilePath → Exec Opened
open_lock lf = try_except (open_excl lf >>= λ fd. pure (opened fd)) open_failed

unfoldable pub fill_lock : FilePath → ℕ → Bytes → Exec (Unit {0})
fill_lock lf fd payload =
    try_except (finally (write fd payload >>= λ n. pure tt) (close fd))
      (λ e. if is_os_error e then suppress_os (unlink lf) >> raise lock_error else raise e)

module _ (host : Host) where
  unfoldable pub session_to_hash : Option Str → Exec (Option Str)
  session_to_hash none = pure none
  session_to_hash (some session) = elim (host.encode (codes "utf-8") session) [
    | none ↦ raise unicode_error
    | some bytes ↦ elim (host.digest (codes "sha256")) [
      | none ↦ raise value_error
      | some hexdigest ↦ pure (some (hexdigest bytes))
    ]
  ]

  -- The loop over the attempts that are left.
  unfoldable pub acquire_loop : ℕ → FilePath → Option Str → ℕ → Exec Bool
  acquire_loop zero lf session_hash delay = pure false
  acquire_loop (suc attempts) lf session_hash delay = do
    timestamp ← now
    payload ← build_payload host session_hash timestamp
    result ← open_lock lf
    elim result [
      | contended ↦ do
        when (ltb 0 attempts && ltb 0 delay) (sleep delay)
        acquire_loop attempts lf session_hash delay
      | opened fd ↦ do fill_lock lf fd payload; pure true
    ]

  -- `retries` and `delay` are checked before they are used as numbers of attempts and microseconds.
  abbrev pub acquire_checked : FilePath → Option Str → ℤ → ℤ → Exec Bool
  acquire_checked target session (negsuc r) delay = raise value_error
  acquire_checked target session (pos retries) (negsuc d) = raise value_error
  acquire_checked target session (pos retries) (pos delay) = do
    session_hash ← session_to_hash session
    acquire_loop (retries + 1) (lock_path target) session_hash delay

  unfoldable pub try_acquire_lock : FilePath → Option Str → ℤ → ℤ → SafetyPolicy → Exec Bool
  try_acquire_lock target session retries delay safety = do
    validate_safety safety
    acquire_checked target session retries delay
