-- ===== src/Formats/Ruamel.antt =====
-- src/safeatomic/_formats_yaml.py, the two functions over ruamel.yaml.
use safeatomic.Prelude.{ℕ, Bool, true, false, Option, none, some, Str}
use safeatomic.Constants.{SafetyPolicy}
use safeatomic.Sys.Errors.{import_error}
use safeatomic.Sys.Fs.{FilePath}
use safeatomic.Sys.Exec.{Result, Exec, pure, raise, of_result, ◌>>=◌, ◌>>◌}
use safeatomic.Host.{Host}
use safeatomic.Config.{Context}
use safeatomic.Io.Write.{Options, write_atomic}
use safeatomic.Io.Read.{read_atomic}

-- `_RuamelYAML` and the class `YAML`: `round_trip` is `YAML(typ="rt")`, `indent` and `set_width`
-- give the instance after the call and the assignment. `installed` says whether it can be imported.
pub record RuamelLibrary (Instance Object : Type 0) : Type 0 where
  pub installed : Bool
  pub new : Instance
  pub round_trip : Instance
  pub indent : ℕ → ℕ → ℕ → Instance → Instance
  pub set_width : ℕ → Instance → Instance
  pub dump : Instance → Object → Result Str
  pub load : Instance → Str → Result Object

module _ {Instance Object : Type 0} (ruamel : RuamelLibrary Instance Object) where
  abbrev check_import : Bool → Exec (Unit {0})
  check_import true = pure tt
  check_import false = raise import_error

  -- `from ruamel.yaml import YAML`
  unfoldable pub import_ruamel : Exec (Unit {0})
  import_ruamel = check_import ruamel.installed

  abbrev pub dumper : Option Instance → Instance
  dumper none = ruamel.set_width 120 (ruamel.indent 2 4 2 ruamel.new)
  dumper (some instance_given) = instance_given

  abbrev pub loader : Option Instance → Instance
  loader none = ruamel.round_trip
  loader (some instance_given) = instance_given

  module _ (host : Host) (chunk_size : ℕ) (vars explicit : Context) where
    unfoldable pub atomic_yaml_dump_ruamel :
        Option Instance → Options → FilePath → Object → Exec (Unit {0})
    atomic_yaml_dump_ruamel yaml_instance o target obj = do
      import_ruamel
      text ← of_result (ruamel.dump (dumper yaml_instance) obj)
      write_atomic host chunk_size vars explicit o target text

    unfoldable pub atomic_yaml_load_ruamel :
        Option Instance → FilePath → Bool → SafetyPolicy → Exec Object
    atomic_yaml_load_ruamel yaml_instance target check_checksum safety = do
      import_ruamel
      text ← read_atomic host vars explicit target check_checksum safety
      of_result (ruamel.load (loader yaml_instance) text)
