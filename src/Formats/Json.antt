-- ===== src/Formats/Json.antt =====
-- src/safeatomic/_formats_json.py
use safeatomic.Prelude.{ℕ, ℤ, pos, Bool, false, Option, some, Str}
use safeatomic.Constants.{SafetyPolicy}
use safeatomic.Sys.Fs.{FilePath}
use safeatomic.Sys.Exec.{Result, Exec, of_result, ◌>>=◌}
use safeatomic.Host.{Host}
use safeatomic.Config.{Context}
use safeatomic.Io.Write.{Options, write_atomic}
use safeatomic.Io.Read.{read_atomic}

-- The keyword arguments of `json.dumps` that the source passes.
pub record JsonStyle : Type 0 where
  pub indent : Option ℤ
  pub sort_keys : Bool
  pub ensure_ascii : Bool

abbrev pub default_style : JsonStyle
default_style = record { indent = some (pos 2); sort_keys = false; ensure_ascii = false }

-- `json.dumps` and `json.loads`
pub record JsonLibrary (Object : Type 0) : Type 0 where
  pub dumps : JsonStyle → Object → Result Str
  pub loads : Str → Result Object

module _ {Object : Type 0} (json : JsonLibrary Object) (host : Host) (chunk_size : ℕ)
    (vars explicit : Context) where
  unfoldable pub atomic_json_dump : JsonStyle → Options → FilePath → Object → Exec (Unit {0})
  atomic_json_dump style o target obj = do
    text ← of_result (json.dumps style obj)
    write_atomic host chunk_size vars explicit o target text

  unfoldable pub atomic_json_load : FilePath → Bool → SafetyPolicy → Exec Object
  atomic_json_load target check_checksum safety = do
    text ← read_atomic host vars explicit target check_checksum safety
    of_result (json.loads text)
