-- ===== src/Io/Move.antt =====
-- `move_atomic`.
use safeatomic.Prelude.{ℕ, Bool, not, ◌&&◌, if◌then◌else◌}
use safeatomic.Prelude.Eq.{◌==◌, nat_eq}
use safeatomic.Constants.{SafetyPolicy}
use safeatomic.Sys.Errors.{Exception, os_error, enoent, eexist, exdev, cross_device_atomicity_error}
use safeatomic.Sys.Fs.{FilePath}
use safeatomic.Sys.Exec.{Exec, pure, raise, try_except, ◌>>=◌, ◌>>◌}
use safeatomic.Sys.Calls.{exists, replace, stat_device, stat_dir}
use safeatomic.Host.{Host}
use safeatomic.Io.Safety.{required_move, check_safety}
use safeatomic.Io.Fsync.{fsync_dir}

-- `except FileNotFoundError: src_dev = dst_dev = 0`
abbrev pub same_if_missing : Exception → Exec (ℕ × ℕ)
same_if_missing (os_error enoent) = pure (0, 0)
same_if_missing e = raise e

unfoldable pub devices : FilePath → FilePath → Exec (ℕ × ℕ)
devices src dst =
    try_except (do src_dev ← stat_device src; dst_dev ← stat_dir dst.dir; pure (src_dev, dst_dev))
      same_if_missing

-- `OSError(EXDEV)` from the rename becomes the same error as a difference of the devices.
abbrev normalise : FilePath → FilePath → Exception → Exec (Unit {0})
normalise src dst (os_error exdev) = raise (cross_device_atomicity_error src dst)
normalise src dst e = raise e

unfoldable pub replace_checked : FilePath → FilePath → Exec (Unit {0})
replace_checked src dst = try_except (replace src dst) (normalise src dst)

unfoldable pub move_atomic : Host → FilePath → FilePath → Bool → SafetyPolicy → Exec (Unit {0})
move_atomic host src dst force safety = do
  check_safety host dst.dir required_move safety
  (src_dev, dst_dev) ← devices src dst
  if src_dev == dst_dev then pure tt else raise (cross_device_atomicity_error src dst)
  found ← exists dst
  if found && not force then raise (os_error eexist) else pure tt
  replace_checked src dst
  fsync_dir dst.dir safety
