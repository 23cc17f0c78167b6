-- ===== src/Tests/Formats.antt =====
-- The format helpers over small serialisers: a text stands for itself, or cannot be written.
use safeatomic.Prelude.{◌≡◌, refl, Bool, true, false, none, some, [], ◌∷◌, ◌++◌, Str, codes}
use safeatomic.Constants.{best_effort}
use safeatomic.Sys.Errors.{value_error}
use safeatomic.Sys.Exec.{Result, ok, raised, ◌>>=◌}
use safeatomic.Sys.Logic.Ends.{Ends}
use safeatomic.Config.{initial}
use safeatomic.Formats.Json.{JsonLibrary, default_style, atomic_json_dump, atomic_json_load}
use safeatomic.Formats.Toml.{TomlLibrary, atomic_toml_dump, atomic_toml_load}
use safeatomic.Formats.Yaml.{YamlLibrary, atomic_yaml_dump, atomic_yaml_load}
use safeatomic.Formats.Ruamel.{RuamelLibrary, atomic_yaml_dump_ruamel, atomic_yaml_load_ruamel}
use safeatomic.Formats.RoundTrip.{
  atomic_json_load-atomic_json_dump, atomic_toml_load-atomic_toml_dump,
  atomic_yaml_load-atomic_yaml_dump, atomic_yaml_load_ruamel-atomic_yaml_dump_ruamel,
}
use safeatomic.Formats.Dumps.{IsWhole, dumps_atomic}
use safeatomic.Tests.Machine.{machine}
use safeatomic.Tests.Disk.{first-Ready}
use safeatomic.Tests.Writes.{
  file_a, file_b, old, new, a-ne-b, a-IsOrdinary, options, start, a-Ready, plain, calm, calm-Plain,
}

-- Each serialiser leaves a mark before the text.
abbrev marked : Str → Str → Result Str
marked mark s = ok (mark ++ s)

abbrev unmarked : Str → Result Str
unmarked (c ∷ s) = ok s
unmarked _ = raised value_error

abbrev json : JsonLibrary Str
json = record { dumps = λ style. marked (codes "j"); loads = unmarked }

abbrev toml : TomlLibrary Str
toml = record { dumps = marked (codes "t"); loads = unmarked }

abbrev yaml : YamlLibrary Str
yaml = record { safe_dump = λ style. marked (codes "y"); safe_load = unmarked }

abbrev ruamel_of : Bool → RuamelLibrary Str Str
ruamel_of installed = record {
  installed = installed;
  new = codes "new";
  round_trip = codes "rt";
  indent = λ mapping sequence offset i. i;
  set_width = λ width i. i;
  dump = λ i. marked (codes "r");
  load = λ i. unmarked;
}

atomic_json_load-atomic_json_dump_example :
    Ends
      (λ x w'. x ≡ new)
      (λ e w'. ⊥)
      ((atomic_json_dump json machine 4 initial initial default_style plain file_a new >>= λ u.
          atomic_json_load json machine 4 initial initial file_a false best_effort)
        calm)
atomic_json_load-atomic_json_dump_example =
    atomic_json_load-atomic_json_dump a-IsOrdinary (some old) machine 4 initial initial plain
      (codes "jnew text") (codes "jnew text") calm (first-Ready file_a file_b old old [] a-ne-b)
      calm-Plain json default_style new refl refl refl refl

atomic_toml_load-atomic_toml_dump_example :
    Ends
      (λ x w'. x ≡ new)
      (λ e w'. ⊥)
      ((atomic_toml_dump toml machine 4 initial initial plain file_a new >>= λ u.
          atomic_toml_load toml machine 4 initial initial file_a false best_effort)
        calm)
atomic_toml_load-atomic_toml_dump_example =
    atomic_toml_load-atomic_toml_dump a-IsOrdinary (some old) machine 4 initial initial plain
      (codes "tnew text") (codes "tnew text") calm (first-Ready file_a file_b old old [] a-ne-b)
      calm-Plain toml new refl refl refl refl

atomic_yaml_load-atomic_yaml_dump_example :
    Ends
      (λ x w'. x ≡ new)
      (λ e w'. ⊥)
      ((atomic_yaml_dump yaml machine 4 initial initial false true plain file_a new >>= λ u.
          atomic_yaml_load yaml machine 4 initial initial file_a false best_effort)
        calm)
atomic_yaml_load-atomic_yaml_dump_example =
    atomic_yaml_load-atomic_yaml_dump a-IsOrdinary (some old) machine 4 initial initial plain
      (codes "ynew text") (codes "ynew text") calm (first-Ready file_a file_b old old [] a-ne-b)
      calm-Plain yaml false true new refl refl refl refl

atomic_yaml_load_ruamel-atomic_yaml_dump_ruamel_example :
    Ends
      (λ x w'. x ≡ new)
      (λ e w'. ⊥)
      ((atomic_yaml_dump_ruamel (ruamel_of true) machine 4 initial initial none plain file_a new
          >>= λ u.
              atomic_yaml_load_ruamel
                (ruamel_of true)
                machine
                4
                initial
                initial
                none
                file_a
                false
                best_effort)
        calm)
atomic_yaml_load_ruamel-atomic_yaml_dump_ruamel_example =
    atomic_yaml_load_ruamel-atomic_yaml_dump_ruamel a-IsOrdinary (some old) machine 4 initial
      initial plain (codes "rnew text") (codes "rnew text") calm
      (first-Ready file_a file_b old old [] a-ne-b) calm-Plain (ruamel_of true) none none new refl
      refl refl refl refl

-- `options` locks and writes a sidecar, and in `start` calls fail.
dumps_atomic_example :
    IsWhole file_a
      (some old)
      (some (codes "jnew text"))
      (atomic_json_dump json machine 4 initial initial default_style options file_a new)
      start
    × IsWhole file_a
        (some old)
        (some (codes "tnew text"))
        (atomic_toml_dump toml machine 4 initial initial options file_a new)
        start
    × IsWhole file_a
        (some old)
        (some (codes "ynew text"))
        (atomic_yaml_dump yaml machine 4 initial initial false true options file_a new)
        start
    × IsWhole file_a
        (some old)
        (some (codes "rnew text"))
        (atomic_yaml_dump_ruamel (ruamel_of true) machine 4 initial initial none options file_a new)
        start
dumps_atomic_example =
    dumps_atomic json toml yaml (ruamel_of true) machine 4 initial initial options file_a
      a-IsOrdinary (some old) start a-Ready default_style false true none new new
