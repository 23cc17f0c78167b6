-- ===== src/Constants.antt =====
-- The constants of src/safeatomic/_constants.py and its two policy types.
use safeatomic.Prelude.{ℕ, Str, codes}

abbrev pub lock_suffix : Str
lock_suffix = codes ".lock"

abbrev pub checksum_suffix : Str
checksum_suffix = codes ".sha256"

abbrev pub tmp_prefix : Str
tmp_prefix = codes ".safeatomic-tmp-"

abbrev pub tmp_suffix : Str
tmp_suffix = codes ".tmp"

abbrev pub default_checksum_algo : Str
default_checksum_algo = codes "sha256"

-- The source reads 1024 * 1024 bytes at a time. Any positive size gives the same digest, and the
-- functions that stream take the size as an argument.
abbrev pub lock_payload_version : ℕ
lock_payload_version = 1

-- `safety` is a plain `str` at run time, so a caller can pass a word that is none of the three.
pub data SafetyPolicy : Type 0 where
  strict warn best_effort : SafetyPolicy
  unrecognised : Str → SafetyPolicy

-- "none" is `unlocked`. Every comparison of the source is with "lock".
pub data ConcurrencyPolicy : Type 0 where
  unlocked lock : ConcurrencyPolicy
