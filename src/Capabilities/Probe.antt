-- ===== src/Capabilities/Probe.antt =====
-- The probes: transient files beside the path.
use safeatomic.Prelude.{true, false, none, some, ◌++◌, Str, codes, if◌then◌else◌}
use safeatomic.Environment.{Capability, supported, unsupported, unknown_capability}
use safeatomic.Text.{decimal}
use safeatomic.Sys.Errors.{is_os_error}
use safeatomic.Sys.Fs.{Dir, FilePath}
use safeatomic.Sys.Exec.{Exec, pure, raise, gets, try_except, finally, suppress_os, ◌>>=◌, ◌>>◌}
use safeatomic.Sys.Calls.{open_excl, open_dir, open_trunc, fsync, close, unlink, replace}
use safeatomic.Host.{Host}

-- `except OSError: return c`
abbrev pub or_report : Exec Capability → Capability → Exec Capability
or_report m c = try_except m (λ e. if is_os_error e then pure c else raise e)

unfoldable pub probe_path : Host → Dir → Str → FilePath
probe_path host parent label = record {
  dir = parent;
  name = codes ".safeatomic-probe-" ++ (label ++ decimal host.pid);
}

-- `if not parent.is_dir(): return "unknown"`
abbrev pub in_directory : Dir → Exec Capability → Exec Capability
in_directory parent m = do
  is_directory ← gets (λ w. w.fs.is_dir parent)
  if is_directory then m else pure unknown_capability

unfoldable pub probe_fsync_file : Host → Dir → Exec Capability
probe_fsync_file host parent =
    let probe = probe_path host parent (codes "fsync-file-") in
    in_directory parent (
      or_report
        (do
          fd ← open_excl probe
          finally (fsync fd) (close fd >> suppress_os (unlink probe))
          pure supported)
        unsupported)

-- An error of the `close` in the `finally` clause is not caught.
unfoldable pub probe_fsync_dir : Dir → Exec Capability
probe_fsync_dir parent = in_directory parent (do
  opened ←
      try_except (open_dir parent >>= λ fd. pure (some fd))
        (λ e. if is_os_error e then pure none else raise e)
  elim opened [
    | none ↦ pure unknown_capability
    | some fd ↦ finally (or_report (fsync fd >> pure supported) unsupported) (close fd)
  ])

unfoldable pub probe_atomic_replace : Host → Dir → Exec Capability
probe_atomic_replace host parent =
    let src = probe_path host parent (codes "replace-src-") in
    let dst = probe_path host parent (codes "replace-dst-") in
    in_directory parent (do
      -- `src.write_bytes(b"")` and `os.replace(src, dst)`
      survived ←
          try_except (do fd ← open_trunc src; close fd; replace src dst; pure true)
            (λ e. if is_os_error e then pure false else raise e)
      if survived
          then suppress_os (unlink dst) >> pure supported
          else suppress_os (unlink src) >> (suppress_os (unlink dst) >> pure unsupported))
