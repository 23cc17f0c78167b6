-- ===== src/Io/Read.antt =====
-- `read_atomic`, `read_atomic_bytes` and what they are made of.
use safeatomic.Prelude.{Bool, true, false, Option, none, some, Str, Bytes, if◌then◌else◌}
use safeatomic.Prelude.Eq.{◌==◌, nat_eq, list_eq}
use safeatomic.Constants.{SafetyPolicy}
use safeatomic.Sys.Errors.{os_error, enoent, checksum_mismatch_error, decode_error}
use safeatomic.Sys.Fs.{FilePath}
use safeatomic.Sys.Exec.{Exec, pure, raise, ◌>>=◌, ◌>>◌}
use safeatomic.Sys.Calls.{read_bytes}
use safeatomic.Host.{Host}
use safeatomic.Config.{Context, resolve_config}
use safeatomic.Capabilities.{node}
use safeatomic.Checksum.{compute_hash_data, get_checksum_info}
use safeatomic.Io.Safety.{Required, required_read, required_read_checksum, check_safety}

module _ (host : Host) where
  unfoldable pub read_verify_checksum : FilePath → Exec Str
  read_verify_checksum target = do
    info ← get_checksum_info host target
    elim info [ none ↦ raise (os_error enoent) | some i ↦ pure i.hash ]

  unfoldable pub read_compare_hash : FilePath → Bytes → Str → Str → Exec (Unit {0})
  read_compare_hash target content expected checksum_algo = do
    actual ← compute_hash_data host content checksum_algo
    if actual == expected then pure tt else raise (checksum_mismatch_error target expected actual)

  -- `sidecar_hash` is `none` where no check was asked for.
  unfoldable pub sidecar_hash_of : FilePath → Bool → Exec (Option Str)
  sidecar_hash_of target true = read_verify_checksum target >>= λ h. pure (some h)
  sidecar_hash_of target false = pure none

  unfoldable pub compare_if : FilePath → Bytes → Option Str → Str → Exec (Unit {0})
  compare_if target content none checksum_algo = pure tt
  compare_if target content (some expected) checksum_algo =
      read_compare_hash target content expected checksum_algo

  unfoldable pub read_core : FilePath → Bool → Str → SafetyPolicy → Required → Exec Bytes
  read_core target check_checksum checksum_algo safety required = do
    check_safety host (node target) required safety
    sidecar_hash ← sidecar_hash_of target check_checksum
    content ← read_bytes target
    compare_if target content sidecar_hash checksum_algo
    pure content

  abbrev pub required_by : Bool → Required
  required_by check_checksum name =
      if check_checksum then required_read_checksum name else required_read name

  unfoldable pub read_atomic_bytes : Context → Context → FilePath → Bool → SafetyPolicy → Exec Bytes
  read_atomic_bytes vars explicit target check_checksum safety =
      let r =
        resolve_config vars (record explicit { encoding = none; retries = none; delay = none }) in
      read_core target check_checksum r.checksum_algo safety (required_by check_checksum)

  unfoldable pub read_atomic : Context → Context → FilePath → Bool → SafetyPolicy → Exec Str
  read_atomic vars explicit target check_checksum safety =
      let r = resolve_config vars (record explicit { retries = none; delay = none }) in
      do
        raw ← read_core target check_checksum r.checksum_algo safety (required_by check_checksum)
        elim (host.decode r.encoding raw) [ none ↦ raise decode_error | some s ↦ pure s ]
