-- ===== src/Capabilities.antt =====
-- src/safeatomic/_capabilities.py: what the file system under a path can do.
pub mod Classify
pub mod Mounts
pub mod Probe
pub mod Frame
pub mod Laws
use safeatomic.Prelude.{
  ℕ, ◌+◌, Bool, true, false, ◌||◌, Option, none, some, List, [], ◌∷◌, Str, if◌then◌else◌,
}
use safeatomic.Prelude.Eq.{nat_eq}
use safeatomic.Environment.{
  Platform, FilesystemClass, unknown, Capability, unknown_capability, Environment,
}
use safeatomic.Sys.Errors.{os_error, enoent, is_os_error}
use safeatomic.Sys.Fs.{Dir, FilePath, Fs, update}
use safeatomic.Sys.World.{World}
use safeatomic.Sys.Exec.{Exec, ok, pure, raise, gets, modify, try_except, ◌>>=◌, ◌>>◌}
use safeatomic.Sys.Calls.{call, done, refused, present}
use safeatomic.Host.{Host}
use Classify.{classify_filesystem, detect_platform}
use Mounts.{detect_filesystem}
use Probe.{probe_fsync_file, probe_fsync_dir, probe_atomic_replace}

-- A path in general, by its names, the innermost first.
abbrev pub node : FilePath → Dir
node p = p.name ∷ p.dir

abbrev pub node_exists : Dir → Fs → Bool
node_exists [] fs = fs.is_dir []
node_exists (n ∷ d) fs = present (record { dir = d; name = n }) fs

-- The walk up to a path that exists. The root ends it.
unfoldable pub existing_ancestor : Dir → Fs → Dir
existing_ancestor [] fs = []
existing_ancestor (n ∷ d) fs = if node_exists (n ∷ d) fs then n ∷ d else existing_ancestor d fs

abbrev pub parent : Dir → Dir
parent [] = []
parent (n ∷ d) = d

abbrev device_of : Dir → Fs → ℕ
device_of p fs = fs.device (if fs.is_dir p then p else parent p)

unfoldable pub cache_get : ℕ → Exec (Option Environment)
cache_get st_dev = gets (λ w. w.cache st_dev)

unfoldable pub cache_put : ℕ → Environment → Exec (Unit {0})
cache_put st_dev env = modify (λ w. record w { cache = update w.cache st_dev (some env) })

unfoldable pub clear_cache : Exec (Unit {0})
clear_cache = modify (λ w. record w { cache = λ st_dev. none })

-- `none` where `stat` raised an `OSError`.
unfoldable pub stat_node : Dir → Exec (Option ℕ)
stat_node p =
    try_except
      (call (λ fs. if node_exists p fs then done (some (device_of p fs)) fs else refused enoent))
      (λ e. if is_os_error e then pure none else raise e)

module _ (host : Host) where
  pub unknown_environment : Environment
  unknown_environment = record {
    platform = detect_platform host;
    filesystem = none;
    filesystem_class = unknown;
    supports_fsync_file = unknown_capability;
    supports_fsync_dir = unknown_capability;
    supports_atomic_replace = unknown_capability;
  }

  unfoldable pub probe_environment : Dir → Dir → Exec Environment
  probe_environment p parent_dir = do
    fsync_file ← probe_fsync_file host parent_dir
    fsync_dir ← probe_fsync_dir parent_dir
    atomic_replace ← probe_atomic_replace host parent_dir
    let fstype = detect_filesystem host p
    pure (record {
      platform = detect_platform host;
      filesystem = fstype;
      filesystem_class = classify_filesystem fstype (detect_platform host) fsync_dir atomic_replace;
      supports_fsync_file = fsync_file;
      supports_fsync_dir = fsync_dir;
      supports_atomic_replace = atomic_replace;
    })

  -- What follows once the device is known.
  unfoldable pub lookup_or_probe : Dir → Dir → ℕ → Option Environment → Exec Environment
  lookup_or_probe p probe_dir st_dev (some env) = pure env
  lookup_or_probe p probe_dir st_dev none = do
    is_directory ← gets (λ w. w.fs.is_dir probe_dir)
    env ← probe_environment p (if is_directory then probe_dir else parent probe_dir)
    cache_put st_dev env
    pure env

  unfoldable pub detect_at : Dir → Dir → Option ℕ → Exec Environment
  detect_at p probe_dir none = pure unknown_environment
  detect_at p probe_dir (some st_dev) = do
    cached ← cache_get st_dev
    lookup_or_probe p probe_dir st_dev cached

  unfoldable pub detect_environment : Dir → Exec Environment
  detect_environment p = do
    probe_dir ← gets (λ w. existing_ancestor p w.fs)
    st ← stat_node probe_dir
    detect_at p probe_dir st
