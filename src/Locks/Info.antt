-- ===== src/Locks/Info.antt =====
-- `LockInfo`, the liveness probe, and the operations that look at a lock.
use safeatomic.Prelude.{
  ℕ, zero, suc, ℤ, pos, negsuc, sub_ℕ, Bool, true, false, not, ◌||◌, Option, none, some, Str, Bytes,
  if◌then◌else◌,
}
use safeatomic.Prelude.Eq.{◌==◌, nat_eq, list_eq}
use safeatomic.Sys.Errors.{Exception, enoent, os_error}
use safeatomic.Sys.Fs.{FilePath}
use safeatomic.Sys.Exec.{Exec, pure, raise, try_except, ◌>>=◌}
use safeatomic.Sys.Calls.{exists, read_bytes, now}
use safeatomic.Host.{Host, Signal, delivered, no_process, not_permitted, failed}
use safeatomic.Paths.{lock_path}
use safeatomic.Locks.Payload.{parse_lock_payload}

pub data LivenessProbe : Type 0 where
  alive dead undetermined : LivenessProbe

pub record LockInfo : Type 0 where
  pub path : FilePath
  pub lock_path : FilePath
  pub exists : Bool
  pub pid : Option ℤ
  pub hostname : Option Str
  pub session_hash : Option Str
  pub timestamp : Option ℕ
  pub alive : Option LivenessProbe
  pub corrupt : Bool
  pub raw : Option Str

-- The age in microseconds, by the current clock.
unfoldable pub age : LockInfo → ℕ → Option ℤ
age info time = elim info.timestamp [ none ↦ none | some t ↦ some (sub_ℕ time t) ]

abbrev pub absent : FilePath → LockInfo
absent target = record {
  path = target;
  lock_path = lock_path target;
  exists = false;
  pid = none;
  hostname = none;
  session_hash = none;
  timestamp = none;
  alive = none;
  corrupt = false;
  raw = none;
}

abbrev pub corrupted : FilePath → Option Str → LockInfo
corrupted target raw = record (absent target) { exists = true; corrupt = true; raw = raw }

abbrev pub is_dead : LivenessProbe → Bool
is_dead dead = true
is_dead _ = false

abbrev pub signalled : Signal → LivenessProbe
signalled delivered = alive
signalled no_process = dead
signalled not_permitted = alive
signalled failed = undetermined

abbrev pub unreadable : FilePath → Exception → Exec LockInfo
unreadable target (os_error enoent) = pure (absent target)
unreadable target (os_error e) = pure (corrupted target none)
unreadable target e = raise e

unfoldable pub is_locked : FilePath → Exec Bool
is_locked target = exists (lock_path target)

module _ (host : Host) where
  unfoldable pub pid_alive_locally : ℤ → LivenessProbe
  pid_alive_locally (pos zero) = undetermined
  pid_alive_locally (pos (suc n)) = signalled (host.kill (suc n))
  pid_alive_locally (negsuc n) = undetermined

  abbrev pub is_local : Option Str → Bool
  is_local none = false
  is_local (some name) = name == host.hostname

  abbrev pub probe_holder : Option Str → Option ℤ → LivenessProbe
  probe_holder hostname none = undetermined
  probe_holder hostname (some pid) =
      if is_local hostname then pid_alive_locally pid else undetermined

  unfoldable pub info_of_payload : FilePath → Bytes → LockInfo
  info_of_payload target raw_bytes = elim (parse_lock_payload host raw_bytes) [
    | none ↦ corrupted target (some (host.decode_lossy raw_bytes))
    | some doc ↦ record {
      path = target;
      lock_path = lock_path target;
      exists = true;
      pid = doc.pid;
      hostname = doc.hostname;
      session_hash = doc.session_hash;
      timestamp = doc.timestamp;
      alive = some (probe_holder doc.hostname doc.pid);
      corrupt = false;
      raw = none;
    }
  ]

  unfoldable pub inspect_lock : FilePath → Exec LockInfo
  inspect_lock target =
      try_except (read_bytes (lock_path target) >>= λ raw. pure (info_of_payload target raw))
        (unreadable target)

  unfoldable pub get_lock_age : FilePath → Exec (Option ℤ)
  get_lock_age target = do
    info ← inspect_lock target
    time ← now
    if not info.exists || info.corrupt then pure none else pure (age info time)
