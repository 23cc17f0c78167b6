-- ===== src/Formats/Dumps.antt =====
-- What the dumps do to their target, and what they leave alone where nothing can be written.
use safeatomic.Prelude.{ℕ, ◌≡◌, refl, Bool, true, false, Option, none, some, Str, Bytes, codes, All}
use safeatomic.Prelude.Eq.{nat_eq, list_eq}
use safeatomic.Sys.Fs.{FilePath}
use safeatomic.Sys.World.{World}
use safeatomic.Sys.Exec.{Exec, Result, ok, raised, pure, raise, of_result, ◌>>=◌}
use safeatomic.Sys.Files.Holds.{Good}
use safeatomic.Host.{Host}
use safeatomic.Config.{Context, resolve_config}
use safeatomic.Ordinary.{IsOrdinary}
use safeatomic.Io.Write.{Options, write_atomic}
use safeatomic.Io.Promises.{Ready, write_core_atomic}
use safeatomic.Io.Writer.Enter.{intended}
use safeatomic.Formats.Json.{JsonLibrary, JsonStyle, atomic_json_dump}
use safeatomic.Formats.Toml.{TomlLibrary, in_utf8, atomic_toml_dump}
use safeatomic.Formats.Yaml.{YamlLibrary, style_of, atomic_yaml_dump}
use safeatomic.Formats.Ruamel.{RuamelLibrary, import_ruamel, dumper, atomic_yaml_dump_ruamel}

-- The bytes that a serialiser's answer makes in an encoding, if any.
abbrev pub bytes_of : Host → Str → Result Str → Option Bytes
bytes_of host encoding (ok text) = host.encode encoding text
bytes_of host encoding (raised e) = none

module _ {target : FilePath} (ordinary : IsOrdinary target) (old : Option Bytes) (host : Host)
    (chunk_size : ℕ) (vars explicit : Context) (o : Options) (w : World)
    (ready : Ready target old w) where
  nothing_done : (new : Option Bytes) → All (Good target old new) w.trace
  nothing_done new = rw ready.fresh tt

  text_atomic :
      (text : Str) (raw : Option Bytes)
      → host.encode (resolve_config vars explicit).encoding text ≡ raw
      → All
          (Good target old (intended old raw))
          (write_atomic host chunk_size vars explicit o target text w).1.trace
  unfolding write_atomic raise
  text_atomic text none e = rw (e, write_atomic) (nothing_done old)
  text_atomic text (some raw) e =
      rw (e, write_atomic) (write_core_atomic ordinary old host chunk_size raw _ _ w ready)

  pub dump_atomic :
      (printed : Result Str)
      → All
          (Good target old
            (intended old (bytes_of host (resolve_config vars explicit).encoding printed)))
          ((of_result printed >>= λ text. write_atomic host chunk_size vars explicit o target text)
            w).1.trace
  unfolding ◌>>=◌
  dump_atomic (ok text) = text_atomic text _ refl
  dump_atomic (raised e) = nothing_done old

-- Every file system that a call of `m` leaves shows `old` or, if there are any, all of the bytes.
abbrev pub IsWhole : FilePath → Option Bytes → Option Bytes → Exec (Unit {0}) → World → Type 0
IsWhole target old raw m w = All (Good target old (intended old raw)) (m w).1.trace

module _ {Object Table Instance : Type 0} (json : JsonLibrary Object) (toml : TomlLibrary Table)
    (yaml : YamlLibrary Object) (ruamel : RuamelLibrary Instance Object) (host : Host)
    (chunk_size : ℕ) (vars explicit : Context) (o : Options) (target : FilePath) where
  ruamel_atomic :
      (ordinary : IsOrdinary target) (old : Option Bytes) (w : World) (ready : Ready target old w)
      (yaml_instance : Option Instance) (obj : Object) (installed : Bool)
      → ruamel.installed ≡ installed
      → IsWhole target old
          (bytes_of host
            (resolve_config vars explicit).encoding
            (ruamel.dump (dumper ruamel yaml_instance) obj))
          (atomic_yaml_dump_ruamel ruamel host chunk_size vars explicit yaml_instance o target obj)
          w
  unfolding atomic_yaml_dump_ruamel import_ruamel ◌>>=◌ pure raise
  ruamel_atomic ordinary old w ready yaml_instance obj true i = rw i (
      dump_atomic ordinary old host chunk_size vars explicit o w ready
        (ruamel.dump (dumper ruamel yaml_instance) obj))
  ruamel_atomic ordinary old w ready yaml_instance obj false i =
      rw i (nothing_done ordinary old host chunk_size vars explicit o w ready _)

  -- Let the target be an ordinary file name and at rest (`Ready`) with the text `old`. For all
  -- options and every list of faults, every file system that a call of `atomic_json_dump`,
  -- `atomic_toml_dump`, `atomic_yaml_dump` or `atomic_yaml_dump_ruamel` leaves shows `old` or the
  -- whole of the object's encoded text: to a reader, and to a reader after a crash with or without
  -- the entry on the disk. Where the serialiser raises or the text cannot be encoded, every one
  -- shows `old`.
  pub dumps_atomic :
      (ordinary : IsOrdinary target) (old : Option Bytes) (w : World) (ready : Ready target old w)
      (style : JsonStyle) (default_flow_style sort_keys : Bool) (yaml_instance : Option Instance)
      (obj : Object) (table : Table)
      → IsWhole target old
          (bytes_of host (resolve_config vars explicit).encoding (json.dumps style obj))
          (atomic_json_dump json host chunk_size vars explicit style o target obj)
          w
        × IsWhole target old
            (bytes_of host (codes "utf-8") (toml.dumps table))
            (atomic_toml_dump toml host chunk_size vars explicit o target table)
            w
        × IsWhole target old
            (bytes_of host
              (resolve_config vars explicit).encoding
              (yaml.safe_dump (style_of default_flow_style sort_keys) obj))
            (atomic_yaml_dump yaml host chunk_size vars explicit default_flow_style sort_keys o
              target obj)
            w
        × IsWhole target old
            (bytes_of host
              (resolve_config vars explicit).encoding
              (ruamel.dump (dumper ruamel yaml_instance) obj))
            (atomic_yaml_dump_ruamel ruamel host chunk_size vars explicit yaml_instance o target
              obj)
            w
  unfolding atomic_json_dump atomic_toml_dump atomic_yaml_dump resolve_config
  dumps_atomic ordinary old w ready style default_flow_style sort_keys yaml_instance obj table = (
    dump_atomic ordinary old host chunk_size vars explicit o w ready (json.dumps style obj),
    dump_atomic ordinary old host chunk_size vars (in_utf8 explicit) o w ready (toml.dumps table),
    dump_atomic ordinary old host chunk_size vars explicit o w ready
        (yaml.safe_dump (style_of default_flow_style sort_keys) obj),
    ruamel_atomic ordinary old w ready yaml_instance obj ruamel.installed refl,
  )
