-- ===== src/Doctor/Frame.antt =====
-- The doctor leaves a target alone that is not named like one of its probes.
use safeatomic.Prelude.{
  ℕ, ◌+◌, ◌≡◌, ◌≢◌, Bool, false, Option, none, some, List, ◌++◌, Str, Bytes, codes, ap,
}
use safeatomic.Text.{starts_with, starts_with-append, decimal}
use safeatomic.Sys.Errors.{Exception, os_error, is_os_error}
use safeatomic.Sys.Fs.{Dir, FilePath}
use safeatomic.Sys.World.{World}
use safeatomic.Sys.Exec.{Exec, ◌>>=◌}
use safeatomic.Sys.Logic.Keeps.{
  Keeps, Keeps-bind, Keeps-if, Keeps-pure, Keeps-raise, Keeps-gets, Keeps-try_except, Keeps-finally,
  Keeps-suppress_os,
}
use safeatomic.Sys.Files.Holds.{Range, Holds}
use safeatomic.Sys.Files.Frame.{Keeps-unlink, Keeps-replace, Keeps-read_bytes, Keeps-stat_mode}
use safeatomic.Sys.Files.Descriptors.{Keeps-open_dir, Keeps-fsync, Keeps-close, Keeps-write}
use safeatomic.Sys.Files.Creation.{Keeps-open_excl}
use safeatomic.Host.{Host, Document, object, no_object}
use safeatomic.Capabilities.Frame.{catch-Keeps}
use safeatomic.Sys.Calls.{open_excl, unlink}
use safeatomic.Sys.Exec.{suppress_os}
use safeatomic.Doctor.Run.{all_probes}
use safeatomic.Doctor.Report.{DoctorStatus}
use safeatomic.Doctor.Probe.{
  doctor_tmp_prefix, doctor_name, probe_filename, try_open, or_status, opened_or, named,
  fsync_dir_status, encoded, decoded, judge_lock, check_parent_exists, check_parent_writable,
  probe_create_excl_0600, probe_fsync_file, probe_fsync_dir, probe_atomic_replace,
  probe_lock_sidecar, probe_checksum_sidecar,
}

module _ {P : World → Type 0} where
  or_status-Keeps : (m : Exec DoctorStatus) (s : DoctorStatus) → Keeps P m → Keeps P (or_status m s)
  or_status-Keeps m s k =
      Keeps-try_except m _ k (λ e. Keeps-if (is_os_error e) _ _ (Keeps-pure s) (Keeps-raise e))

  named-Keeps : (name : Str) (m : Exec DoctorStatus) → Keeps P m → Keeps P (named name m)
  named-Keeps name m k = Keeps-bind _ _ k (λ status. Keeps-pure _)

  opened_or-Keeps :
      (s : DoctorStatus) (fd : Option ℕ) (body : ℕ → Exec DoctorStatus)
      → ((fd : ℕ) → Keeps P (body fd))
      → Keeps P (opened_or s fd body)
  opened_or-Keeps s none body k = Keeps-pure s
  opened_or-Keeps s (some fd) body k = k fd

  fsync_dir_status-Keeps : (e : Exception) → Keeps P (fsync_dir_status e)
  fsync_dir_status-Keeps (os_error e) = Keeps-pure _
  fsync_dir_status-Keeps e = Keeps-raise e

  encoded-Keeps :
      (host : Host) (parent : Dir) (o : Option (List ℕ)) → Keeps P (encoded host parent o)
  encoded-Keeps host parent none = Keeps-raise _
  encoded-Keeps host parent (some raw) = Keeps-pure raw

  decoded-Keeps : (host : Host) (parent : Dir) (o : Option Str) → Keeps P (decoded host parent o)
  decoded-Keeps host parent none = Keeps-raise _
  decoded-Keeps host parent (some s) = Keeps-pure s

  judge_lock-Keeps :
      (host : Host) (parent : Dir) (o : Option Document) → Keeps P (judge_lock host parent o)
  judge_lock-Keeps host parent none = Keeps-pure _
  judge_lock-Keeps host parent (some (object doc)) = Keeps-pure _
  judge_lock-Keeps host parent (some no_object) = Keeps-raise _

  pub Keeps-check_parent_exists : (parent : Dir) → Keeps P (check_parent_exists parent)
  unfolding check_parent_exists
  Keeps-check_parent_exists parent = Keeps-bind _ _ (Keeps-gets _) (λ found. Keeps-pure _)

  pub Keeps-check_parent_writable :
      (access : Dir → Bool) (parent : Dir) → Keeps P (check_parent_writable access parent)
  unfolding check_parent_writable
  Keeps-check_parent_writable access parent = Keeps-bind _ _ (Keeps-gets _) (λ found. Keeps-pure _)

module _ {target : FilePath} (apart : starts_with target.name doctor_tmp_prefix ≡ false)
    {c d a b v : Option Bytes} (r : Range c d a b v) (host : Host) (parent : Dir) where
  doctor_name-ne :
      (tag : Str) (n : ℕ) → record { dir = parent; name = doctor_name host tag n } ≢ target
  unfolding doctor_name
  doctor_name-ne tag n e = cc (
    ap (λ (p : FilePath). starts_with p.name doctor_tmp_prefix) e,
    starts_with-append doctor_tmp_prefix
        (tag ++ (codes "-" ++ (decimal host.pid ++ (codes "-" ++ host.token_hex n)))),
    apart,
  )

  -- A probe that gets a name of its own.
  with_probe :
      {A : Type 0} (tag : Str) (f : FilePath → Exec A)
      → ((probe : FilePath) → probe ≢ target → Keeps (Holds target c d a b v) (f probe))
      → Keeps (Holds target c d a b v) (probe_filename host parent tag >>= f)
  unfolding probe_filename ◌>>=◌
  with_probe tag f k = record {
    at = λ w h.
        (k _ (doctor_name-ne tag w.drawn)).at (record w { drawn = w.drawn + 1 })
          (record {
            settled = h.settled;
            clear = h.clear;
            held = h.held;
            past = h.past;
            calm = h.calm;
          });
  }

  opened :
      (probe : FilePath)
      → probe ≢ target
      → Keeps (Holds target c d a b v) (try_open (open_excl probe))
  opened probe ne = catch-Keeps _ (Keeps-open_excl r probe ne)

  removed :
      (probe : FilePath)
      → probe ≢ target
      → Keeps (Holds target c d a b v) (suppress_os (unlink probe))
  removed probe ne = Keeps-suppress_os _ (Keeps-unlink r probe ne)

  Keeps-probe_create_excl_0600 : Keeps (Holds target c d a b v) (probe_create_excl_0600 host parent)
  unfolding probe_create_excl_0600
  Keeps-probe_create_excl_0600 = named-Keeps _ _ (
      with_probe _ _ (λ probe ne. Keeps-bind _ _ (opened probe ne) (λ o.
        opened_or-Keeps _ o _ (λ fd.
          Keeps-finally _ _
            (Keeps-bind _ _ (Keeps-close r fd)
              (λ u. Keeps-bind _ _ (Keeps-stat_mode r probe) (λ mode. Keeps-pure _)))
            (removed probe ne)))))

  Keeps-probe_fsync_file : Keeps (Holds target c d a b v) (probe_fsync_file host parent)
  unfolding probe_fsync_file
  Keeps-probe_fsync_file = named-Keeps _ _ (
      with_probe _ _ (λ probe ne. Keeps-bind _ _ (opened probe ne) (λ o.
        opened_or-Keeps _ o _ (λ fd.
          Keeps-finally _ _
            (Keeps-bind _ _ (Keeps-write r fd _)
              (λ n. or_status-Keeps _ _ (Keeps-bind _ _ (Keeps-fsync r fd) (λ u. Keeps-pure _))))
            (Keeps-bind _ _ (Keeps-suppress_os _ (Keeps-close r fd)) (λ u. removed probe ne))))))

  Keeps-probe_fsync_dir : Keeps (Holds target c d a b v) (probe_fsync_dir host parent)
  unfolding probe_fsync_dir
  Keeps-probe_fsync_dir = named-Keeps _ _ (
      Keeps-bind _ _ (Keeps-gets _) (λ found.
        Keeps-bind _ _
          (Keeps-if found _ _ (catch-Keeps _ (Keeps-open_dir r parent)) (Keeps-pure none))
          (λ o. opened_or-Keeps _ o _ (λ fd.
            Keeps-finally _ _
              (Keeps-try_except _ _ (Keeps-bind _ _ (Keeps-fsync r fd) (λ u. Keeps-pure _))
                fsync_dir_status-Keeps)
              (Keeps-suppress_os _ (Keeps-close r fd))))))

  Keeps-probe_atomic_replace : Keeps (Holds target c d a b v) (probe_atomic_replace host parent)
  unfolding probe_atomic_replace
  Keeps-probe_atomic_replace = named-Keeps _ _ (
      with_probe _ _ (λ src src_ne. with_probe _ _ (λ dst dst_ne.
        Keeps-bind _ _ (opened src src_ne) (λ o. opened_or-Keeps _ o _ (λ fd.
          Keeps-finally _ _
            (Keeps-bind _ _ (Keeps-write r fd _) (λ n. Keeps-bind _ _ (Keeps-close r fd) (λ u.
              or_status-Keeps _ _
                (Keeps-bind _ _ (Keeps-replace r src dst src_ne dst_ne) (λ u. Keeps-pure _)))))
            (Keeps-bind _ _ (removed src src_ne) (λ u. removed dst dst_ne)))))))

  Keeps-probe_lock_sidecar : Keeps (Holds target c d a b v) (probe_lock_sidecar host parent)
  unfolding probe_lock_sidecar
  Keeps-probe_lock_sidecar = named-Keeps _ _ (
      with_probe _ _ (λ probe ne. Keeps-bind _ _ (opened probe ne) (λ o.
        opened_or-Keeps _ o _ (λ fd.
          Keeps-finally _ _
            (or_status-Keeps _ _ (
              Keeps-bind _ _ (encoded-Keeps host parent _) (λ raw.
                Keeps-bind _ _ (Keeps-write r fd raw) (λ n. Keeps-bind _ _ (Keeps-close r fd) (λ u.
                  Keeps-bind _ _ (Keeps-read_bytes r probe) (λ content.
                    Keeps-bind _ _ (decoded-Keeps host parent _)
                      (λ s. judge_lock-Keeps host parent _)))))))
            (removed probe ne)))))

  Keeps-probe_checksum_sidecar : Keeps (Holds target c d a b v) (probe_checksum_sidecar host parent)
  unfolding probe_checksum_sidecar
  Keeps-probe_checksum_sidecar = named-Keeps _ _ (
      with_probe _ _ (λ probe ne. Keeps-bind _ _ (opened probe ne) (λ o.
        opened_or-Keeps _ o _ (λ fd.
          Keeps-finally _ _
            (or_status-Keeps _ _ (
              Keeps-bind _ _ (Keeps-write r fd _) (λ n.
                Keeps-bind _ _ (Keeps-close r fd)
                  (λ u. Keeps-bind _ _ (Keeps-read_bytes r probe) (λ content. Keeps-pure _)))))
            (removed probe ne)))))

  pub Keeps-all_probes :
      (access : Dir → Bool) → Keeps (Holds target c d a b v) (all_probes host access parent)
  unfolding all_probes
  Keeps-all_probes access = Keeps-bind _ _ Keeps-probe_create_excl_0600 (λ x.
      Keeps-bind _ _ Keeps-probe_fsync_file (λ x. Keeps-bind _ _ Keeps-probe_fsync_dir (λ x.
        Keeps-bind _ _ Keeps-probe_atomic_replace (λ x.
          Keeps-bind _ _ Keeps-probe_lock_sidecar
            (λ x. Keeps-bind _ _ Keeps-probe_checksum_sidecar (λ x. Keeps-pure _))))))
