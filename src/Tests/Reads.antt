-- ===== src/Tests/Reads.antt =====
-- A read that checks the sidecar, on the small disk.
use safeatomic.Prelude.{◌≡◌, refl, sym, true, false, some, [], Bytes, codes}
use safeatomic.Prelude.Eq.{nat_eq, list_eq, list_beq}
use safeatomic.Constants.{best_effort}
use safeatomic.Text.{
  split_lines, is_line_end, first_word, strip_left, until_space, is_space, partition, strip,
  strip_right, lower, lower_char,
}
use safeatomic.Sys.Fs.{FilePath, visible}
use safeatomic.Sys.World.{World}
use safeatomic.Sys.Logic.Ends.{Ends}
use safeatomic.Paths.{checksum_path}
use safeatomic.Sys.Calls.{newlines, replace_bytes}
use safeatomic.Paths.Laws.{checksum_path-ne}
use safeatomic.Checksum.Sidecar.{Fields, parse_sidecar, fields_of, add_pairs, add_pair, get_pair}
use safeatomic.Io.Safety.{required_read_checksum}
use safeatomic.Io.Read.{read_core}
use safeatomic.Io.Verified.{HashesTo, read_core_verified}
use safeatomic.Tests.Machine.{machine}
use safeatomic.Tests.Disk.{at_root, two_files, world_of, first-Ready, second-Ready}

abbrev file_a : FilePath
file_a = at_root (codes "a")

abbrev old : Bytes
old = codes "old"

-- The digest of "old" on the machine is "319", the sum of its bytes.
abbrev side : Bytes
side = codes "319  a\nalgo=sha256\ntimestamp=50\n"

abbrev sidecar : Fields
sidecar = record {
  digest = codes "319";
  algo = some (codes "sha256");
  timestamp = some (codes "50");
}

abbrev summed : World
summed = world_of (two_files file_a old (checksum_path file_a) side) []

side-parsed : parse_sidecar (newlines false (replace_bytes side)) ≡ some sidecar
unfolding parse_sidecar split_lines is_line_end fields_of first_word strip_left until_space is_space
    add_pairs add_pair partition strip strip_right get_pair lower lower_char list_beq
side-parsed = refl

a-visible : visible summed.fs file_a ≡ some old
a-visible =
    (first-Ready file_a (checksum_path file_a) old side []
      (λ e. checksum_path-ne file_a (sym e))).settled.seen

side-visible : visible summed.fs (checksum_path file_a) ≡ some side
side-visible = (second-Ready file_a (checksum_path file_a) old side []).settled.seen

read_core_verified_example :
    Ends
      (λ content w'.
        (content ≡ old) × HashesTo machine (codes "sha256") old (codes "319") × (w'.fs ≡ summed.fs))
      (λ e w'. w'.fs ≡ summed.fs)
      (read_core machine file_a true (codes "sha256") best_effort required_read_checksum summed)
read_core_verified_example =
    read_core_verified machine file_a side old sidecar (codes "sha256") required_read_checksum
      summed a-visible side-visible side-parsed
