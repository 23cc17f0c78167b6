-- ===== src/Tests/Readers.antt =====
-- `AtomicReader` on the small disk.
use safeatomic.Prelude.{◌≡◌, refl, false, List, [], ◌∷◌, codes, All, arith}
use safeatomic.Prelude.Eq.{list_beq}
use safeatomic.Constants.{best_effort}
use safeatomic.Sys.Fs.{path_beq}
use safeatomic.Sys.World.{World}
use safeatomic.Sys.Calls.{rename}
use safeatomic.Sys.Method.{◌>>◌}
use safeatomic.Sys.Method.Sat.{EndsWith}
use safeatomic.Io.Reader.{new_reader, enter, exit, iterate}
use safeatomic.Io.Reader.Snapshot.{
  ReadStep, read_step, line_step, others_step, IsHarmless, read_to_end, on_file,
}
use safeatomic.Io.Reader.Open.{read_to_end_snapshot}
use safeatomic.Io.Reader.Lines.{split_lines, join, iterate-split_lines}
use safeatomic.Io.Reader.Closed.{IsClosed, exit-IsClosed}
use safeatomic.Tests.Machine.{machine}
use safeatomic.Tests.Disk.{two_files, world_of}
use safeatomic.Tests.Writes.{file_a, file_b, start}

-- Another process replaces the file by its neighbour while it is read.
abbrev steps : List ReadStep
steps = read_step 3 ∷ others_step (rename file_b file_a 1) ∷ line_step ∷ []

abbrev disk : World
disk = world_of (two_files file_a (codes "one two") file_b (codes "three")) []

steps-IsHarmless : All (IsHarmless 0) steps
steps-IsHarmless = (tt, ((λ fs. refl), (tt, tt)))

read_to_end_snapshot_example :
    EndsWith
      (λ x s w'. x ≡ codes "one two")
      (λ e s w'. ⊥)
      ((enter machine 4 file_a false (codes "sha256") best_effort >> read_to_end steps) new_reader
        disk)
unfolding path_beq list_beq
read_to_end_snapshot_example =
    read_to_end_snapshot file_a machine 4 (codes "sha256") 0 steps disk refl refl steps-IsHarmless

iterate-split_lines_example :
    EndsWith
      (λ lines s w'. (lines ≡ split_lines (codes "one two")) × (join lines ≡ codes "one two"))
      (λ e s w'. ⊥)
      ((enter machine 4 file_a false (codes "sha256") best_effort >> iterate 8) new_reader disk)
unfolding path_beq list_beq
iterate-split_lines_example =
    iterate-split_lines file_a machine 4 (codes "sha256") 0 8 disk refl refl (omega arith)

exit-IsClosed_example : EndsWith (λ u. IsClosed) (λ e s' w'. ⊥) (exit (on_file 3 0 [] 2) start)
exit-IsClosed_example = exit-IsClosed (on_file 3 0 [] 2) start
