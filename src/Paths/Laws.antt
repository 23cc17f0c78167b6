-- ===== src/Paths/Laws.antt =====
-- The names of the sidecars and of the temporary files of a target.
use safeatomic.Prelude.{ℕ, ◌<◌, ◌≡◌, ◌≢◌, ap, true, ◌++◌, Str, length, length-append, arith}
use safeatomic.Constants.{lock_suffix, checksum_suffix, tmp_prefix, tmp_suffix}
use safeatomic.Text.{starts_with-append, ends_with-append}
use safeatomic.Sys.Fs.{FilePath}
use safeatomic.Host.{Host}
use safeatomic.Paths.{lock_path, checksum_path, tmp_name, is_tmp_name}
use mathlib.Core.List.{append_assoc}

-- A name that `tmp_path_for` makes is one that `is_tmp_name` knows.
pub is_tmp_name-tmp_name : (host : Host) (n : ℕ) → is_tmp_name (tmp_name host n) ≡ true
unfolding is_tmp_name tmp_name
is_tmp_name-tmp_name host n = ground (
  arith,
  starts_with-append tmp_prefix (host.token_hex n ++ tmp_suffix),
  ends_with-append (tmp_prefix ++ host.token_hex n) tmp_suffix,
  append_assoc tmp_prefix (host.token_hex n) tmp_suffix,
)

suffix_longer : (s t : Str) → 0 < length t → s ++ t ≢ s
suffix_longer s t h e = omega (arith, ap length e, length-append s t)

pub lock_path-ne : (p : FilePath) → lock_path p ≢ p
unfolding lock_path
lock_path-ne p e = suffix_longer p.name lock_suffix (omega arith) (ap (λ (q : FilePath). q.name) e)

pub checksum_path-ne : (p : FilePath) → checksum_path p ≢ p
unfolding checksum_path
checksum_path-ne p e =
    suffix_longer p.name checksum_suffix (omega arith) (ap (λ (q : FilePath). q.name) e)
