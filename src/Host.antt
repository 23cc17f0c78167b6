-- ===== src/Host.antt =====
-- What the process and its machine supply: who runs, the hash functions, the text codecs, JSON, the
-- date format, the random names and the mount table. The model computes with these as given.
use safeatomic.Prelude.{ℕ, ℤ, Bool, Option, List, Str, Bytes}

-- The result of `os.kill(pid, 0)`: no error, or the error by its class.
pub data Signal : Type 0 where
  delivered no_process not_permitted failed : Signal

-- A JSON value as `json.loads` gives it, as far as the source looks into one: `real` is a float in
-- millionths, `compound` a list or an object.
pub data Json : Type 0 where
  null : Json
  boolean : Bool → Json
  number : ℤ → Json
  real : ℤ → Json
  text : Str → Json
  compound : Json

-- A JSON document: an object with its fields in order, or another value.
pub data Document : Type 0 where
  object : List (Str × Json) → Document
  no_object : Document

-- A datetime with no time zone, or the microseconds of a UTC instant.
pub data Stamp : Type 0 where
  naive : ℕ → Stamp
  aware : ℕ → Stamp

pub record Host : Type 0 where
  pub pid : ℕ
  pub hostname : Str
  pub kill : ℕ → Signal
  -- `hashlib.new(algo)` raises `ValueError` at `none`; otherwise the digest of all bytes fed in.
  pub digest : Str → Option (Bytes → Str)
  -- `s.encode(encoding)` and `b.decode(encoding)`; `none` is an exception.
  pub encode : Str → Str → Option Bytes
  pub decode : Str → Bytes → Option Str
  -- `b.decode("utf-8", errors="replace")`
  pub decode_lossy : Bytes → Str
  -- `json.dumps` with the separators of the source, `json.loads`
  pub dumps : List (Str × Json) → Str
  pub loads : Str → Option Document
  pub isoformat : ℕ → Str
  pub fromisoformat : Str → Option Stamp
  -- the n-th value that `secrets.token_hex` draws
  pub token_hex : ℕ → Str
  pub sys_platform : Str
  -- the lines of /proc/mounts, each split at white space; `none` where it cannot be read
  pub proc_mounts : Option (List (List Str))
