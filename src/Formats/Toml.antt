-- ===== src/Formats/Toml.antt =====
-- src/safeatomic/_formats_toml.py
use safeatomic.Prelude.{ℕ, Bool, some, Str, codes}
use safeatomic.Constants.{SafetyPolicy}
use safeatomic.Sys.Fs.{FilePath}
use safeatomic.Sys.Exec.{Result, Exec, of_result, ◌>>=◌}
use safeatomic.Host.{Host}
use safeatomic.Config.{Context}
use safeatomic.Io.Write.{Options, write_atomic}
use safeatomic.Io.Read.{read_atomic}

-- `tomli_w.dumps` and `tomllib.loads`
pub record TomlLibrary (Table : Type 0) : Type 0 where
  pub dumps : Table → Result Str
  pub loads : Str → Result Table

-- The encoding is fixed, and is no argument of the two functions.
abbrev pub in_utf8 : Context → Context
in_utf8 explicit = record explicit { encoding = some (codes "utf-8") }

module _ {Table : Type 0} (toml : TomlLibrary Table) (host : Host) (chunk_size : ℕ)
    (vars explicit : Context) where
  unfoldable pub atomic_toml_dump : Options → FilePath → Table → Exec (Unit {0})
  atomic_toml_dump o target obj = do
    text ← of_result (toml.dumps obj)
    write_atomic host chunk_size vars (in_utf8 explicit) o target text

  unfoldable pub atomic_toml_load : FilePath → Bool → SafetyPolicy → Exec Table
  atomic_toml_load target check_checksum safety = do
    text ← read_atomic host vars (in_utf8 explicit) target check_checksum safety
    of_result (toml.loads text)
