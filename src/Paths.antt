-- ===== src/Paths.antt =====
-- src/safeatomic/_paths.py: where the sidecars and the temporary file of a target stand.
pub mod Laws
use safeatomic.Prelude.{ℕ, ◌+◌, Bool, ◌&&◌, ◌++◌, Str}
use safeatomic.Constants.{lock_suffix, checksum_suffix, tmp_prefix, tmp_suffix}
use safeatomic.Text.{starts_with, ends_with}
use safeatomic.Sys.Fs.{FilePath}
use safeatomic.Sys.Exec.{Exec, ok}
use safeatomic.Host.{Host}

-- `p.with_name(name)`
abbrev with_name : FilePath → Str → FilePath
with_name p name = record p { name = name }

unfoldable pub lock_path : FilePath → FilePath
lock_path target = with_name target (target.name ++ lock_suffix)

unfoldable pub checksum_path : FilePath → FilePath
checksum_path target = with_name target (target.name ++ checksum_suffix)

unfoldable pub tmp_name : Host → ℕ → Str
tmp_name host n = tmp_prefix ++ (host.token_hex n ++ tmp_suffix)

-- Each call draws a new token.
unfoldable pub tmp_path_for : Host → FilePath → Exec FilePath
unfolding tmp_name
tmp_path_for host target w =
    (ok (with_name target (tmp_name host w.drawn)), record w { drawn = w.drawn + 1 })

unfoldable pub is_tmp_name : Str → Bool
is_tmp_name name = starts_with name tmp_prefix && ends_with name tmp_suffix
