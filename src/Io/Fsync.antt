-- ===== src/Io/Fsync.antt =====
-- `_fsync_dir`: the parent directory after a replacement.
use safeatomic.Prelude.{Option, none, some, ℕ, if◌then◌else◌}
use safeatomic.Constants.{SafetyPolicy, strict, warn}
use safeatomic.Sys.Errors.{Exception, is_os_error}
use safeatomic.Sys.Fs.{Dir}
use safeatomic.Sys.Exec.{
  Exec, pure, raise, try_except, finally, suppress_os, warn_unsupported, ◌>>=◌, ◌>>◌,
}
use safeatomic.Sys.Calls.{open_dir, fsync, close}

-- A word that is no policy counts as "best_effort" here.
unfoldable pub fsync_dir_handle_failure : Exception → SafetyPolicy → Exec (Unit {0})
fsync_dir_handle_failure exc strict = raise exc
fsync_dir_handle_failure exc warn = warn_unsupported
fsync_dir_handle_failure exc _ = pure tt

-- `except OSError as exc`
abbrev pub on_os_error : SafetyPolicy → Exception → Exec (Unit {0})
on_os_error safety e = if is_os_error e then fsync_dir_handle_failure e safety else raise e

-- `none` where the open failed and the failure was let pass.
unfoldable pub open_or_report : Dir → SafetyPolicy → Exec (Option ℕ)
open_or_report directory safety =
    try_except (open_dir directory >>= λ fd. pure (some fd))
      (λ e. on_os_error safety e >> pure none)

unfoldable pub fsync_dir : Dir → SafetyPolicy → Exec (Unit {0})
unfolding open_or_report
fsync_dir directory safety = do
  dir_fd ← open_or_report directory safety
  elim dir_fd [
    | none ↦ pure tt
    | some fd ↦ finally (try_except (fsync fd) (on_os_error safety)) (suppress_os (close fd))
  ]
