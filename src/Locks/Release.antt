-- ===== src/Locks/Release.antt =====
-- `release_lock`, `force_release_lock`, and the recovery of stale locks.
use safeatomic.Prelude.{
  ℕ, ℤ, pos, ltb_ℤ, Bool, true, false, not, ◌&&◌, ◌||◌, Option, none, some, if◌then◌else◌,
}
use safeatomic.Prelude.Eq.{◌==◌, nat_eq, list_eq}
use safeatomic.Sys.Errors.{Exception, enoent, os_error, lock_error}
use safeatomic.Sys.Fs.{FilePath}
use safeatomic.Sys.Exec.{Exec, pure, raise, try_except, ◌>>=◌, ◌>>◌}
use safeatomic.Sys.Calls.{unlink, now}
use safeatomic.Host.{Host}
use safeatomic.Paths.{lock_path}
use safeatomic.Locks.Info.{LockInfo, age, is_dead, pid_alive_locally, is_local, inspect_lock}

-- `except FileNotFoundError: return False`; every other `OSError` becomes a `LockError`.
abbrev pub removal_failed : Exception → Exec Bool
removal_failed (os_error enoent) = pure false
removal_failed (os_error e) = raise lock_error
removal_failed e = raise e

unfoldable pub remove_lock : FilePath → Exec Bool
remove_lock lf = try_except (unlink lf >> pure true) removal_failed

unfoldable pub force_release_lock : FilePath → Exec Bool
force_release_lock target = remove_lock (lock_path target)

abbrev pub too_old : Option ℤ → Option ℤ → Bool
too_old (some max_age) (some age) = ltb_ℤ max_age age
too_old _ _ = false

module _ (host : Host) where
  abbrev pub is_our_pid : Option ℤ → Bool
  is_our_pid (some (pos n)) = n == host.pid
  is_our_pid _ = false

  abbrev pub held_by_us : LockInfo → Bool
  held_by_us info =
      info.exists && (not info.corrupt && (is_our_pid info.pid && is_local host info.hostname))

  unfoldable pub release_lock : FilePath → Exec Bool
  release_lock target = do
    info ← inspect_lock host target
    if held_by_us info then remove_lock info.lock_path else pure false

  abbrev pub dead_here : LockInfo → Bool
  dead_here info = elim info.pid [
    | none ↦ false
    | some pid ↦ is_local host info.hostname && is_dead (pid_alive_locally host pid)
  ]

  unfoldable pub judge_stale : Option ℤ → LockInfo → ℕ → Bool
  judge_stale max_age info time =
      if not info.exists || info.corrupt
      then false
      else dead_here info || too_old max_age (age info time)

  unfoldable pub is_stale_lock : FilePath → Option ℤ → Exec Bool
  is_stale_lock target max_age = do
    info ← inspect_lock host target
    time ← now
    pure (judge_stale max_age info time)

  unfoldable pub release_stale_lock : FilePath → Option ℤ → Exec Bool
  release_stale_lock target max_age = do
    stale ← is_stale_lock target max_age
    if stale then force_release_lock target else pure false
