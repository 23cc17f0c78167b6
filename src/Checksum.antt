-- ===== src/Checksum.antt =====
-- src/safeatomic/_checksum.py: digests of files and the checksum sidecar.
pub mod Sidecar
pub mod Laws
pub mod RoundTrip
pub mod Verification
use safeatomic.Prelude.{
  ℕ, zero, suc, ◌+◌, Bool, true, false, Option, none, some, List, [], ◌∷◌, ◌++◌, Str, Bytes, codes,
  length, take, drop, if◌then◌else◌,
}
use safeatomic.Prelude.Eq.{◌==◌, nat_eq, list_eq}
use safeatomic.Constants.{default_checksum_algo}
use safeatomic.Text.{lower}
use safeatomic.Sys.Errors.{Exception, value_error, unicode_error, os_error, enoent, is_os_error}
use safeatomic.Sys.Fs.{FilePath}
use safeatomic.Sys.Exec.{Exec, pure, raise, try_except, finally, ◌>>=◌, ◌>>◌}
use safeatomic.Sys.Calls.{exists, read_bytes, write_text, read_text, now}
use safeatomic.Host.{Host, Stamp, aware}
use safeatomic.Paths.{checksum_path}
use Sidecar.{Fields, print_sidecar, parse_sidecar}

pub record ChecksumInfo : Type 0 where
  pub path : FilePath
  pub algo : Str
  pub hash : Str
  pub timestamp : Stamp

-- The loop that feeds the hash object a chunk at a time: what it has been fed at the end.
unfoldable pub feed : ℕ → ℕ → Bytes → Bytes → Bytes
feed zero size rest fed = fed
feed (suc fuel) size [] fed = fed
feed (suc fuel) size (b ∷ rest) fed =
    feed fuel size (drop size (b ∷ rest)) (fed ++ take size (b ∷ rest))

abbrev pub raw_fields : Option Str → Option Fields
raw_fields none = none
raw_fields (some raw) = parse_sidecar raw

module _ (host : Host) where
  -- `hashlib.new(algo)`
  unfoldable pub hashlib_new : Str → Exec (Bytes → Str)
  hashlib_new algo = elim (host.digest algo) [ none ↦ raise value_error | some d ↦ pure d ]

  -- A read of `content` by chunks. There are at most as many chunks as bytes.
  unfoldable pub compute_hash_file : ℕ → FilePath → Str → Exec Str
  compute_hash_file chunk_size p algo = do
    hexdigest ← hashlib_new algo
    content ← read_bytes p
    pure (hexdigest (feed (length content) chunk_size content []))

  unfoldable pub compute_hash_data : Bytes → Str → Exec Str
  compute_hash_data content algo = do hexdigest ← hashlib_new algo; pure (hexdigest content)

  -- The sidecar's algorithm plays no part.
  unfoldable pub verify_against : ℕ → FilePath → Str → Str → Exec Bool
  verify_against chunk_size p expected algo = do
    actual ← compute_hash_file chunk_size p algo
    pure (lower actual == lower expected)

  unfoldable pub write_checksum_file : ℕ → FilePath → Str → Exec FilePath
  write_checksum_file chunk_size p algo = do
    found ← exists p
    if found then pure tt else raise (os_error enoent)
    digest ← compute_hash_file chunk_size p algo
    time ← now
    write_text (checksum_path p) (print_sidecar digest p.name algo (host.isoformat time))
    pure (checksum_path p)

  abbrev pub or_now : Option Str → ℕ → Stamp
  or_now none time = aware time
  or_now (some s) time = elim (host.fromisoformat s) [ none ↦ aware time | some t ↦ t ]

  abbrev pub or_default : Option Str → Str
  or_default none = default_checksum_algo
  or_default (some algo) = algo

  unfoldable pub info_of : FilePath → Option Fields → ℕ → Option ChecksumInfo
  info_of p none time = none
  info_of p (some fields) time = some (record {
    path = p;
    algo = or_default fields.algo;
    hash = fields.digest;
    timestamp = or_now fields.timestamp time;
  })

  -- `none` where the file could not be read.
  unfoldable pub read_sidecar : FilePath → Exec (Option Str)
  read_sidecar sidecar =
      try_except (read_text sidecar >>= λ raw. pure (some raw))
        (λ e. if is_os_error e then pure none else raise e)

  unfoldable pub get_checksum_info : FilePath → Exec (Option ChecksumInfo)
  get_checksum_info p = do
    found ← exists (checksum_path p)
    if found
        then (do
          raw ← read_sidecar (checksum_path p)
          time ← now
          pure (info_of p (raw_fields raw) time))
        else pure none

  unfoldable pub verify_checksum : ℕ → FilePath → Option Str → Str → Exec Bool
  verify_checksum chunk_size p (some expected) algo = verify_against chunk_size p expected algo
  verify_checksum chunk_size p none algo = do
    info ← get_checksum_info p
    elim info [ none ↦ raise (os_error enoent) | some i ↦ verify_against chunk_size p i.hash algo ]
