-- ===== src/Doctor/Probe.antt =====
-- The probes of the doctor: each makes a file of its own beside the path and removes it.
use safeatomic.Prelude.{
  ℕ, ◌+◌, pos, Bool, true, false, Option, none, some, List, [], ◌∷◌, ◌++◌, Str, codes,
  if◌then◌else◌,
}
use safeatomic.Prelude.Eq.{◌==◌, nat_eq, list_eq}
use safeatomic.Text.{decimal}
use safeatomic.Sys.Errors.{
  Errno, eacces, other_errno, Exception, os_error, is_os_error, unicode_error, decode_error,
  attribute_error,
}
use safeatomic.Sys.Fs.{Dir, FilePath}
use safeatomic.Sys.Exec.{Exec, ok, pure, raise, gets, try_except, finally, suppress_os, ◌>>=◌, ◌>>◌}
use safeatomic.Sys.Calls.{
  open_excl, open_dir, write, fsync, close, unlink, replace, read_bytes, stat_mode,
}
use safeatomic.Host.{Host, Json, number, boolean, Document, object, no_object}
use safeatomic.Capabilities.{node_exists}
use safeatomic.Locks.Payload.{get_member}
use safeatomic.Doctor.Report.{DoctorStatus, passed, warned, failed, unknown, DoctorCheck}

abbrev pub doctor_tmp_prefix : Str
doctor_tmp_prefix = codes ".safeatomic-doctor-"

-- 0o600
abbrev pub expected_tmp_mode : ℕ
expected_tmp_mode = 384

abbrev pub check : Str → DoctorStatus → DoctorCheck
check name status = record { name = name; status = status }

unfoldable pub doctor_name : Host → Str → ℕ → Str
doctor_name host tag n =
    doctor_tmp_prefix
    ++ (tag ++ (codes "-" ++ (decimal host.pid ++ (codes "-" ++ host.token_hex n))))

-- Each call draws a new nonce.
unfoldable pub probe_filename : Host → Dir → Str → Exec FilePath
probe_filename host parent tag w = (
  ok (record { dir = parent; name = doctor_name host tag w.drawn }),
  record w { drawn = w.drawn + 1 },
)

-- `parent.exists()`
abbrev pub dir_exists : Dir → Exec Bool
dir_exists parent = gets (λ w. node_exists parent w.fs)

unfoldable pub check_parent_exists : Dir → Exec DoctorCheck
check_parent_exists parent = do
  found ← dir_exists parent
  pure (check (codes "parent_exists") (if found then passed else failed))

-- `access` stands for `os.access(parent, os.W_OK)`.
unfoldable pub check_parent_writable : (Dir → Bool) → Dir → Exec DoctorCheck
check_parent_writable access parent = do
  found ← dir_exists parent
  pure (
      check (codes "parent_writable")
        (if found then if access parent then passed else failed else unknown))

-- `except OSError: return DoctorCheck(name, status, ...)`
abbrev pub or_status : Exec DoctorStatus → DoctorStatus → Exec DoctorStatus
or_status m status = try_except m (λ e. if is_os_error e then pure status else raise e)

-- `none` where the open raised an `OSError`.
abbrev pub try_open : Exec ℕ → Exec (Option ℕ)
try_open m =
    try_except (m >>= λ fd. pure (some fd)) (λ e. if is_os_error e then pure none else raise e)

-- The status is `refused` where the probe cannot be opened.
abbrev pub opened_or : DoctorStatus → Option ℕ → (ℕ → Exec DoctorStatus) → Exec DoctorStatus
opened_or refused none body = pure refused
opened_or refused (some fd) body = body fd

abbrev pub named : Str → Exec DoctorStatus → Exec DoctorCheck
named name m = m >>= λ status. pure (check name status)

-- EINVAL, ENOTSUP and EACCES
abbrev pub is_unsupported : Errno → Bool
is_unsupported eacces = true
is_unsupported (other_errno n) = if n == 22 then true else n == 95
is_unsupported _ = false

abbrev pub fsync_dir_status : Exception → Exec DoctorStatus
fsync_dir_status (os_error e) = pure (if is_unsupported e then warned else failed)
fsync_dir_status e = raise e

module _ (host : Host) (parent : Dir) where
  unfoldable pub probe_create_excl_0600 : Exec DoctorCheck
  probe_create_excl_0600 = named (codes "create_excl_0600") (do
    probe ← probe_filename host parent (codes "excl")
    fd ← try_open (open_excl probe)
    opened_or failed fd λ fd.
        finally
          (do
            close fd
            mode ← stat_mode probe
            pure (if mode == expected_tmp_mode then passed else warned))
          (suppress_os (unlink probe)))

  unfoldable pub probe_fsync_file : Exec DoctorCheck
  probe_fsync_file = named (codes "fsync_file") (do
    probe ← probe_filename host parent (codes "fsyncfile")
    fd ← try_open (open_excl probe)
    opened_or unknown fd λ fd.
        finally (write fd (codes "x") >>= λ n. or_status (fsync fd >> pure passed) failed)
          (suppress_os (close fd) >> suppress_os (unlink probe)))

  unfoldable pub probe_fsync_dir : Exec DoctorCheck
  probe_fsync_dir = named (codes "fsync_dir") (do
    found ← dir_exists parent
    dfd ← if found then try_open (open_dir parent) else pure none
    opened_or unknown dfd λ fd.
        finally (try_except (fsync fd >> pure passed) fsync_dir_status) (suppress_os (close fd)))

  unfoldable pub probe_atomic_replace : Exec DoctorCheck
  probe_atomic_replace = named (codes "atomic_replace") (do
    src ← probe_filename host parent (codes "rpl-src")
    dst ← probe_filename host parent (codes "rpl-dst")
    fd ← try_open (open_excl src)
    opened_or unknown fd λ fd.
        finally
          (do n ← write fd (codes "x"); close fd; or_status (replace src dst >> pure passed) failed)
          (suppress_os (unlink src) >> suppress_os (unlink dst)))

  abbrev pub encoded : Option (List ℕ) → Exec (List ℕ)
  encoded none = raise unicode_error
  encoded (some raw) = pure raw

  abbrev pub decoded : Option Str → Exec Str
  decoded none = raise decode_error
  decoded (some s) = pure s

  abbrev is_true : Option Json → Bool
  is_true (some (boolean b)) = b
  is_true _ = false

  -- What `json.loads` gives. A value without `get` raises.
  abbrev pub judge_lock : Option Document → Exec DoctorStatus
  judge_lock none = pure failed
  judge_lock (some (object doc)) =
      pure (if is_true (get_member (codes "probe") doc) then passed else failed)
  judge_lock (some no_object) = raise attribute_error

  unfoldable pub probe_lock_sidecar : Exec DoctorCheck
  probe_lock_sidecar = named (codes "lock_sidecar") (do
    probe ← probe_filename host parent (codes "lock")
    fd ← try_open (open_excl probe)
    opened_or failed fd λ fd.
        finally
          (or_status
            (do
              raw ← encoded (
                  host.encode (codes "utf-8") (
                    host.dumps
                      ((codes "version", number (pos 1)) ∷ (codes "probe", boolean true) ∷ [])))
              n ← write fd raw
              close fd
              content ← read_bytes probe
              s ← decoded (host.decode (codes "utf-8") content)
              judge_lock (host.loads s))
            failed)
          (suppress_os (unlink probe)))

  unfoldable pub probe_checksum_sidecar : Exec DoctorCheck
  probe_checksum_sidecar = named (codes "checksum_sidecar") (do
    probe ← probe_filename host parent (codes "cksum")
    fd ← try_open (open_excl probe)
    opened_or failed fd λ fd.
        finally
          (or_status
            (do
              n ← write fd (codes "sha256:abcd1234" ++ 10 ∷ [])
              close fd
              content ← read_bytes probe
              pure passed)
            failed)
          (suppress_os (unlink probe)))
