-- ===== src/Formats/Yaml.antt =====
-- src/safeatomic/_formats_yaml.py, the two functions over PyYAML.
use safeatomic.Prelude.{ℕ, Bool, true, Str}
use safeatomic.Constants.{SafetyPolicy}
use safeatomic.Sys.Fs.{FilePath}
use safeatomic.Sys.Exec.{Result, Exec, of_result, ◌>>=◌}
use safeatomic.Host.{Host}
use safeatomic.Config.{Context}
use safeatomic.Io.Write.{Options, write_atomic}
use safeatomic.Io.Read.{read_atomic}

-- The keyword arguments of `yaml.safe_dump` that the source passes.
pub record YamlStyle : Type 0 where
  pub default_flow_style : Bool
  pub sort_keys : Bool
  pub allow_unicode : Bool

-- `yaml.safe_dump` and `yaml.safe_load`
pub record YamlLibrary (Object : Type 0) : Type 0 where
  pub safe_dump : YamlStyle → Object → Result Str
  pub safe_load : Str → Result Object

abbrev pub style_of : Bool → Bool → YamlStyle
style_of default_flow_style sort_keys = record {
  default_flow_style = default_flow_style;
  sort_keys = sort_keys;
  allow_unicode = true;
}

module _ {Object : Type 0} (yaml : YamlLibrary Object) (host : Host) (chunk_size : ℕ)
    (vars explicit : Context) where
  unfoldable pub atomic_yaml_dump : Bool → Bool → Options → FilePath → Object → Exec (Unit {0})
  atomic_yaml_dump default_flow_style sort_keys o target obj = do
    text ← of_result (yaml.safe_dump (style_of default_flow_style sort_keys) obj)
    write_atomic host chunk_size vars explicit o target text

  unfoldable pub atomic_yaml_load : FilePath → Bool → SafetyPolicy → Exec Object
  atomic_yaml_load target check_checksum safety = do
    text ← read_atomic host vars explicit target check_checksum safety
    of_result (yaml.safe_load text)
