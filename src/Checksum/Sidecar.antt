-- ===== src/Checksum/Sidecar.antt =====
-- The text of a checksum sidecar: its printing in `write_checksum_file` and its reading in
-- `get_checksum_info`.
use safeatomic.Prelude.{Option, none, some, List, [], ◌∷◌, ◌++◌, Str, codes, if◌then◌else◌}
use safeatomic.Prelude.Eq.{◌==◌, nat_eq, list_eq}
use safeatomic.Text.{lower, split_lines, first_word, strip, partition}

unfoldable pub print_sidecar : Str → Str → Str → Str → Str
print_sidecar digest name algo timestamp =
    digest
    ++ (codes "  "
        ++ (name
            ++ (codes "\nalgo=" ++ (algo ++ (codes "\ntimestamp=" ++ (timestamp ++ codes "\n"))))))

pub record Fields : Type 0 where
  pub digest : Str
  pub algo : Option Str
  pub timestamp : Option Str

abbrev pub Pairs : Type 0
Pairs = List (Str × Str)

-- `kvs.get(key)`. The newest pair stands first.
unfoldable pub get_pair : Str → Pairs → Option Str
get_pair key [] = none
get_pair key ((k, v) ∷ kvs) = if k == key then some v else get_pair key kvs

-- A line with "=" is a pair.
unfoldable pub add_pair : Str → Pairs → Pairs
add_pair line kvs = elim (partition line) [
  | none ↦ kvs
  | some (key, value) ↦ (strip key, strip value) ∷ kvs
]

unfoldable pub add_pairs : List Str → Pairs → Pairs
add_pairs [] kvs = kvs
add_pairs (line ∷ lines) kvs = add_pairs lines (add_pair line kvs)

unfoldable pub fields_of : List Str → Option Fields
fields_of [] = none
fields_of (first ∷ lines) = elim (first_word first) [
  | none ↦ none
  | some digest ↦
      let kvs = add_pairs lines [] in
      some (record {
        digest = lower digest;
        algo = get_pair (codes "algo") kvs;
        timestamp = get_pair (codes "timestamp") kvs;
      })
]

unfoldable pub parse_sidecar : Str → Option Fields
parse_sidecar raw = fields_of (split_lines raw [])
