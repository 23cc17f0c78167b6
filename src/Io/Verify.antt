-- ===== src/Io/Verify.antt =====
-- `AtomicReader._verify_checksum_before_open`
use safeatomic.Prelude.{ℕ, Option, none, some, Str, if◌then◌else◌}
use safeatomic.Prelude.Eq.{◌==◌, nat_eq, list_eq}
use safeatomic.Sys.Errors.{os_error, enoent, checksum_mismatch_error}
use safeatomic.Sys.Fs.{FilePath}
use safeatomic.Sys.Exec.{Exec, pure, raise, ◌>>=◌}
use safeatomic.Host.{Host}
use safeatomic.Checksum.{ChecksumInfo, compute_hash_file, get_checksum_info}

module _ (host : Host) (chunk_size : ℕ) (target : FilePath) (checksum_algo : Str) where
  abbrev pub compare_file : Option ChecksumInfo → Exec (Unit {0})
  compare_file none = raise (os_error enoent)
  compare_file (some info) = do
    actual ← compute_hash_file host chunk_size target checksum_algo
    if actual == info.hash then pure tt else raise (checksum_mismatch_error target info.hash actual)

  unfoldable pub verify_checksum_before_open : Exec (Unit {0})
  verify_checksum_before_open = do info ← get_checksum_info host target; compare_file info
