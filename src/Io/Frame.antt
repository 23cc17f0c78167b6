-- ===== src/Io/Frame.antt =====
-- The gate, the directory sync and the checksum sidecar, and the files that they are not about.
use safeatomic.Prelude.{◌≢◌, ℕ, Option, List, [], ◌∷◌, Bytes, Str}
use safeatomic.Constants.{SafetyPolicy, strict, warn, best_effort}
use safeatomic.Sys.Errors.{Exception, is_os_error}
use safeatomic.Sys.Fs.{Dir, FilePath}
use safeatomic.Sys.Exec.{warn_unsupported, modify}
use safeatomic.Sys.Logic.Keeps.{
  Keeps, Keeps-bind, Keeps-if, Keeps-try_except, Keeps-finally, Keeps-pure, Keeps-raise,
  Keeps-suppress_os, Keeps-option,
}
use safeatomic.Sys.Files.Holds.{Range, Holds}
use safeatomic.Sys.Files.Frame.{Keeps-exists, Keeps-now, Keeps-read_bytes}
use safeatomic.Sys.Files.Descriptors.{Keeps-open_dir, Keeps-fsync, Keeps-close}
use safeatomic.Sys.Files.Creation.{Keeps-write_text}
use safeatomic.Host.{Host}
use safeatomic.Ordinary.{IsOrdinary}
use safeatomic.Paths.{checksum_path}
use safeatomic.Capabilities.Frame.{Keeps-detect_environment}
use safeatomic.Guarantees.{GuaranteeName, inspect_guarantees}
use safeatomic.Checksum.{hashlib_new, compute_hash_file, write_checksum_file}
use safeatomic.Io.Safety.{Required, decide, check_against, check_safety}
use safeatomic.Io.Fsync.{fsync_dir_handle_failure, on_os_error, open_or_report, fsync_dir}
use safeatomic.Io.Write.{write_checksum_sidecar}

module _ {target : FilePath} {c d a b v : Option Bytes} where
  Keeps-warn_unsupported : Keeps (Holds target c d a b v) warn_unsupported
  unfolding warn_unsupported modify
  Keeps-warn_unsupported = record {
    at = λ w h. record {
      settled = h.settled;
      clear = h.clear;
      held = h.held;
      past = h.past;
      calm = h.calm;
    };
  }

  decide-Keeps :
      (safety : SafetyPolicy) (failed : List GuaranteeName)
      → Keeps (Holds target c d a b v) (decide safety failed)
  unfolding decide
  decide-Keeps safety [] = Keeps-pure _
  decide-Keeps warn (x ∷ xs) = Keeps-warn_unsupported
  decide-Keeps _ (x ∷ xs) = Keeps-raise _

  handle_failure-Keeps :
      (e : Exception) (safety : SafetyPolicy)
      → Keeps (Holds target c d a b v) (fsync_dir_handle_failure e safety)
  unfolding fsync_dir_handle_failure
  handle_failure-Keeps e strict = Keeps-raise e
  handle_failure-Keeps e warn = Keeps-warn_unsupported
  handle_failure-Keeps e _ = Keeps-pure _

  on_os_error-Keeps :
      (safety : SafetyPolicy) (e : Exception)
      → Keeps (Holds target c d a b v) (on_os_error safety e)
  on_os_error-Keeps safety e =
      Keeps-if (is_os_error e) _ _ (handle_failure-Keeps e safety) (Keeps-raise e)

module _ {target : FilePath} {c d a b v : Option Bytes} (r : Range c d a b v) where
  pub Keeps-fsync_dir :
      (directory : Dir) (safety : SafetyPolicy)
      → Keeps (Holds target c d a b v) (fsync_dir directory safety)
  unfolding fsync_dir open_or_report
  Keeps-fsync_dir directory safety =
      Keeps-bind _ _
        (Keeps-try_except _ _ (Keeps-bind _ _ (Keeps-open_dir r directory) (λ fd. Keeps-pure _))
          (λ e. Keeps-bind _ _ (on_os_error-Keeps safety e) (λ u. Keeps-pure _)))
        (λ dir_fd. Keeps-option dir_fd _ _ (Keeps-pure _) (λ fd.
          Keeps-finally _ _ (Keeps-try_except _ _ (Keeps-fsync r fd) (on_os_error-Keeps safety))
            (Keeps-suppress_os _ (Keeps-close r fd))))

module _ {target : FilePath} {c d a b v : Option Bytes} (r : Range c d a b v) (host : Host) where
  hashlib_new-Keeps : (algo : Str) → Keeps (Holds target c d a b v) (hashlib_new host algo)
  unfolding hashlib_new
  hashlib_new-Keeps algo = Keeps-option (host.digest algo) _ _ (Keeps-raise _) (λ x. Keeps-pure x)

  compute_hash_file-Keeps :
      (chunk_size : ℕ) (p : FilePath) (algo : Str)
      → Keeps (Holds target c d a b v) (compute_hash_file host chunk_size p algo)
  unfolding compute_hash_file
  compute_hash_file-Keeps chunk_size p algo =
      Keeps-bind _ _ (hashlib_new-Keeps algo)
        (λ x. Keeps-bind _ _ (Keeps-read_bytes r p) (λ y. Keeps-pure _))

  pub Keeps-write_checksum_sidecar :
      (chunk_size : ℕ) (p : FilePath) (algo : Str)
      → checksum_path p ≢ target
      → Keeps (Holds target c d a b v) (write_checksum_sidecar host chunk_size p algo)
  unfolding write_checksum_sidecar write_checksum_file
  Keeps-write_checksum_sidecar chunk_size p algo ne =
      Keeps-try_except _ _
        (Keeps-bind _ _
          (Keeps-bind _ _ (Keeps-exists r p) (λ found.
            Keeps-bind _ _ (Keeps-if found _ _ (Keeps-pure _) (Keeps-raise _)) (λ u.
              Keeps-bind _ _ (compute_hash_file-Keeps chunk_size p algo) (λ digest.
                Keeps-bind _ _ (Keeps-now r)
                  (λ t. Keeps-bind _ _ (Keeps-write_text r _ _ ne) (λ u. Keeps-pure _))))))
          (λ q. Keeps-pure _))
        (λ e. Keeps-raise _)

module _ {target : FilePath} (o : IsOrdinary target) {c d a b v : Option Bytes}
    (r : Range c d a b v) (host : Host) where
  check_against-Keeps :
      (p : Dir) (required : Required) (safety : SafetyPolicy)
      → Keeps (Holds target c d a b v) (check_against host p required safety)
  unfolding check_against inspect_guarantees
  check_against-Keeps p required safety =
      Keeps-bind _ _ (Keeps-bind _ _ (Keeps-detect_environment o r host p) (λ env. Keeps-pure _))
        (λ report. decide-Keeps safety _)

  pub Keeps-check_safety :
      (p : Dir) (required : Required) (safety : SafetyPolicy)
      → Keeps (Holds target c d a b v) (check_safety host p required safety)
  unfolding check_safety
  Keeps-check_safety p required best_effort = Keeps-pure _
  Keeps-check_safety p required _ = check_against-Keeps p required _
