-- ===== src/Doctor/Run.antt =====
-- `doctor`
use safeatomic.Prelude.{Bool, ◌&&◌, Option, List, [], ◌∷◌, Str, codes, if◌then◌else◌}
use safeatomic.Sys.Fs.{Dir}
use safeatomic.Sys.Exec.{Exec, pure, gets, ◌>>=◌}
use safeatomic.Host.{Host}
use safeatomic.Capabilities.{parent, detect_environment}
use safeatomic.Guarantees.{inspect_guarantees}
use safeatomic.Doctor.Report.{unknown, DoctorCheck, DoctorReport, evaluate_require}
use safeatomic.Doctor.Probe.{
  check, dir_exists, check_parent_exists, check_parent_writable, probe_create_excl_0600,
  probe_fsync_file, probe_fsync_dir, probe_atomic_replace, probe_lock_sidecar,
  probe_checksum_sidecar,
}

-- The probes that are left out without `destructive`.
abbrev pub skipped : List DoctorCheck
skipped =
    check (codes "create_excl_0600") unknown
    ∷ check (codes "fsync_file") unknown
    ∷ check (codes "fsync_dir") unknown
    ∷ check (codes "atomic_replace") unknown
    ∷ check (codes "lock_sidecar") unknown
    ∷ check (codes "checksum_sidecar") unknown
    ∷ []

module _ (host : Host) (access : Dir → Bool) where
  unfoldable pub all_probes : Dir → Exec (List DoctorCheck)
  all_probes d = do
    excl ← probe_create_excl_0600 host d
    fsync_file ← probe_fsync_file host d
    fsync_dir ← probe_fsync_dir host d
    atomic_replace ← probe_atomic_replace host d
    lock_sidecar ← probe_lock_sidecar host d
    checksum_sidecar ← probe_checksum_sidecar host d
    pure (excl ∷ fsync_file ∷ fsync_dir ∷ atomic_replace ∷ lock_sidecar ∷ checksum_sidecar ∷ [])

  unfoldable pub probes : Dir → Bool → Exec (List DoctorCheck)
  probes d destructive = do
    found ← dir_exists d
    if destructive && found then all_probes d else pure skipped

  -- `resolved` is the path after `resolve`.
  unfoldable pub doctor : Dir → Bool → Option (List Str) → Exec DoctorReport
  doctor resolved destructive require = do
    is_directory ← gets (λ w. w.fs.is_dir resolved)
    let d = if is_directory then resolved else parent resolved
    env ← detect_environment host d
    guarantees ← inspect_guarantees host d
    exists_check ← check_parent_exists d
    writable_check ← check_parent_writable access d
    others ← probes d destructive
    let checks = exists_check ∷ writable_check ∷ others
    pure (record {
      path = resolved;
      environment = env;
      guarantees = guarantees;
      checks = checks;
      ok = evaluate_require require guarantees checks;
    })
