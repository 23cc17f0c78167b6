-- ===== src/Formats/RoundTrip.antt =====
-- What a dump has stored, a load gives back.
use safeatomic.Prelude.{ℕ, ◌≡◌, refl, Bool, true, false, Option, some, Str, Bytes, codes}
use safeatomic.Prelude.Eq.{nat_eq, list_eq}
use safeatomic.Constants.{best_effort}
use safeatomic.Sys.Fs.{FilePath, path_eq}
use safeatomic.Sys.World.{World}
use safeatomic.Sys.Exec.{ok, pure, ◌>>=◌}
use safeatomic.Sys.Logic.Ends.{Ends}
use safeatomic.Host.{Host}
use safeatomic.Config.{Context, resolve_config}
use safeatomic.Ordinary.{IsOrdinary}
use safeatomic.Io.Write.{Options}
use safeatomic.Formats.Stored.{stored_back}
use safeatomic.Formats.Toml.{TomlLibrary, in_utf8, atomic_toml_dump, atomic_toml_load}
use safeatomic.Formats.Yaml.{YamlLibrary, atomic_yaml_dump, atomic_yaml_load}
use safeatomic.Formats.Ruamel.{
  RuamelLibrary, import_ruamel, dumper, loader, atomic_yaml_dump_ruamel, atomic_yaml_load_ruamel,
}
use safeatomic.Formats.Json.{JsonLibrary, JsonStyle, atomic_json_dump, atomic_json_load}
use safeatomic.Io.Promises.{Ready}
use safeatomic.Io.Returns.Plain.{Plain}

module _ {target : FilePath} (ordinary : IsOrdinary target) (old : Option Bytes) (host : Host)
    (chunk_size : ℕ) (vars explicit : Context) (o : Options) (text : Str) (raw : Bytes) (w : World)
    (ready : Ready target old w) (plain : Plain host target o w) where
  -- Let the target be an ordinary file name and at rest (`Ready`) and the write be plain (`Plain`:
  -- the next temporary name free, no call failing, no lock, no gate, no sidecar). If `json.dumps`
  -- gives a text for the object that `json.loads` takes back to it, and the encoding in force takes
  -- the text to bytes and back, then `atomic_json_dump` followed by `atomic_json_load`, without a
  -- gate and a sidecar, returns the object.
  pub atomic_json_load-atomic_json_dump :
      {Object : Type 0} (json : JsonLibrary Object) (style : JsonStyle) (obj : Object)
      → host.encode (resolve_config vars explicit).encoding text ≡ some raw
      → host.decode (resolve_config vars explicit).encoding raw ≡ some text
      → json.dumps style obj ≡ ok text
      → json.loads text ≡ ok obj
      → Ends
          (λ x w'. x ≡ obj)
          (λ e w'. ⊥)
          ((atomic_json_dump json host chunk_size vars explicit style o target obj >>= λ u.
              atomic_json_load json host chunk_size vars explicit target false best_effort)
            w)
  unfolding atomic_json_dump atomic_json_load ◌>>=◌
  atomic_json_load-atomic_json_dump json style obj e d printed parsed =
      stored_back ordinary old host chunk_size vars explicit o text raw w e d ready plain
        (λ w. atomic_json_dump json host chunk_size vars explicit style o target obj w)
        (λ w. atomic_json_load json host chunk_size vars explicit target false best_effort w) obj
        json.loads (rw printed refl) refl parsed

  -- The same for `atomic_toml_dump` and `atomic_toml_load`, whose encoding is UTF-8 whatever the
  -- context says: for a target at rest and a plain write the table comes back, if `tomllib.loads`
  -- takes what `tomli_w.dumps` gives back to it and UTF-8 takes the text to bytes and back.
  pub atomic_toml_load-atomic_toml_dump :
      {Table : Type 0} (toml : TomlLibrary Table) (obj : Table)
      → host.encode (codes "utf-8") text ≡ some raw
      → host.decode (codes "utf-8") raw ≡ some text
      → toml.dumps obj ≡ ok text
      → toml.loads text ≡ ok obj
      → Ends
          (λ x w'. x ≡ obj)
          (λ e w'. ⊥)
          ((atomic_toml_dump toml host chunk_size vars explicit o target obj >>= λ u.
              atomic_toml_load toml host chunk_size vars explicit target false best_effort)
            w)
  unfolding atomic_toml_dump atomic_toml_load ◌>>=◌ resolve_config
  atomic_toml_load-atomic_toml_dump toml obj e d printed parsed =
      stored_back ordinary old host chunk_size vars (in_utf8 explicit) o text raw w e d ready plain
        (λ w. atomic_toml_dump toml host chunk_size vars explicit o target obj w)
        (λ w. atomic_toml_load toml host chunk_size vars explicit target false best_effort w) obj
        toml.loads (rw printed refl) refl parsed

  -- The same for `atomic_yaml_dump` and `atomic_yaml_load`: for a target at rest and a plain write
  -- the object comes back, if `yaml.safe_load` takes what `yaml.safe_dump` gives, with
  -- `allow_unicode` set, back to it and the encoding in force takes the text to bytes and back.
  pub atomic_yaml_load-atomic_yaml_dump :
      {Object : Type 0} (yaml : YamlLibrary Object) (default_flow_style sort_keys : Bool)
      (obj : Object)
      → host.encode (resolve_config vars explicit).encoding text ≡ some raw
      → host.decode (resolve_config vars explicit).encoding raw ≡ some text
      → yaml.safe_dump
          (record {
            default_flow_style = default_flow_style;
            sort_keys = sort_keys;
            allow_unicode = true;
          })
          obj
        ≡ ok text
      → yaml.safe_load text ≡ ok obj
      → Ends
          (λ x w'. x ≡ obj)
          (λ e w'. ⊥)
          ((atomic_yaml_dump yaml host chunk_size vars explicit default_flow_style sort_keys o
                target obj
              >>= λ u. atomic_yaml_load yaml host chunk_size vars explicit target false best_effort)
            w)
  unfolding atomic_yaml_dump atomic_yaml_load ◌>>=◌
  atomic_yaml_load-atomic_yaml_dump yaml default_flow_style sort_keys obj e d printed parsed =
      stored_back ordinary old host chunk_size vars explicit o text raw w e d ready plain
        (λ w.
          atomic_yaml_dump yaml host chunk_size vars explicit default_flow_style sort_keys o target
            obj w)
        (λ w. atomic_yaml_load yaml host chunk_size vars explicit target false best_effort w) obj
        yaml.safe_load (rw printed refl) refl parsed

  -- The same for the two functions over ruamel.yaml, where it is installed: for a target at rest and
  -- a plain write the object comes back, if the instance that the load uses (`YAML(typ="rt")` or the
  -- one given) takes what the instance of the dump (a fresh one with the indents 2, 4, 2 and width
  -- 120, or the one given) gives back to it, and the encoding in force takes the text to bytes and
  -- back.
  pub atomic_yaml_load_ruamel-atomic_yaml_dump_ruamel :
      {Instance Object : Type 0} (ruamel : RuamelLibrary Instance Object)
      (writer reader : Option Instance) (obj : Object)
      → ruamel.installed ≡ true
      → host.encode (resolve_config vars explicit).encoding text ≡ some raw
      → host.decode (resolve_config vars explicit).encoding raw ≡ some text
      → ruamel.dump (dumper ruamel writer) obj ≡ ok text
      → ruamel.load (loader ruamel reader) text ≡ ok obj
      → Ends
          (λ x w'. x ≡ obj)
          (λ e w'. ⊥)
          ((atomic_yaml_dump_ruamel ruamel host chunk_size vars explicit writer o target obj
              >>= λ u.
                  atomic_yaml_load_ruamel ruamel host chunk_size vars explicit reader target false
                    best_effort)
            w)
  unfolding atomic_yaml_dump_ruamel atomic_yaml_load_ruamel import_ruamel ◌>>=◌ pure
  atomic_yaml_load_ruamel-atomic_yaml_dump_ruamel ruamel writer reader obj i e d printed parsed =
      stored_back ordinary old host chunk_size vars explicit o text raw w e d ready plain
        (λ w. atomic_yaml_dump_ruamel ruamel host chunk_size vars explicit writer o target obj w)
        (λ w.
          atomic_yaml_load_ruamel ruamel host chunk_size vars explicit reader target false
            best_effort w)
        obj (ruamel.load (loader ruamel reader)) (rw (i, printed) refl) (rw i refl) parsed
