-- ===== src/Tests/Writes.antt =====
-- Writes, a read and a move on the small disk.
use safeatomic.Prelude.{
  ℕ, length, ◌≡◌, ◌≢◌, ◌⊎◌, refl, sym, ap, pos, true, false, none, some, [], ◌∷◌, Bytes, Str, codes,
  arith, All,
}
use safeatomic.Prelude.Eq.{nat_eq, list_eq, list_beq}
use safeatomic.Constants.{SafetyPolicy, strict, best_effort, lock, unlocked}
use safeatomic.Text.{decimal, starts_with}
use safeatomic.Sys.Errors.{other_errno}
use safeatomic.Sys.Fs.{FilePath, path_beq, crashed_early}
use safeatomic.Sys.World.{World, pass, short, fail}
use safeatomic.Sys.Exec.{raised}
use safeatomic.Sys.Logic.Ends.{Ends}
use safeatomic.Sys.Files.Holds.{Good}
use safeatomic.Ordinary.{IsOrdinary}
use safeatomic.Paths.{lock_path, checksum_path, is_tmp_name, tmp_name}
use safeatomic.Paths.Laws.{lock_path-ne}
use safeatomic.Io.Safety.{required_write, check_safety}
use safeatomic.Io.Write.{Options, write_core}
use safeatomic.Io.Move.{move_atomic}
use safeatomic.Io.Promises.{Ready, Shows, write_core_atomic, write_core-Shows, write_core_durable}
use safeatomic.Io.Returns.Plain.{Plain, write_core_returns}
use safeatomic.Io.Exclusion.{write_core_excluded}
use safeatomic.Io.Bystander.{IsBystander, write_core_bystander}
use safeatomic.Io.NoOverwrite.{move_atomic_no_overwrite}
use safeatomic.Io.Gate.{Verdict, check_safety-Verdict}
use safeatomic.Guarantees.{inspect_guarantees}
use safeatomic.Tests.Machine.{machine}
use safeatomic.Tests.Disk.{at_root, two_files, world_of, first-Ready, second-Ready}

abbrev pub file_a : FilePath
file_a = at_root (codes "a")

abbrev pub file_b : FilePath
file_b = at_root (codes "b")

abbrev pub old : Bytes
old = codes "old"

abbrev pub new : Bytes
new = codes "new text"

pub a-ne-b : file_a ≢ file_b
a-ne-b e = omega (arith, ap (λ (p : FilePath). initial p.name) e)
  where
    initial : Str → ℕ
    initial [] = 0
    initial (c ∷ s) = c

pub a-IsOrdinary : IsOrdinary file_a
unfolding is_tmp_name starts_with
a-IsOrdinary = record { no_tmp = refl; no_probe = refl }

abbrev pub options : Options
options = record {
  concurrency = lock;
  preserve_metadata = true;
  write_checksum = true;
  checksum_algo = codes "sha256";
  retries = pos 1;
  delay = pos 0;
  session = none;
  safety = strict;
}

-- The first write is cut short and the sync of the directory fails.
abbrev pub start : World
start =
    world_of (two_files file_a old file_b old)
      (pass ∷ pass ∷ short 2 ∷ pass ∷ fail (other_errno 5) ∷ [])

pub a-Ready : Ready file_a (some old) start
a-Ready = first-Ready file_a file_b old old _ a-ne-b

write_core_atomic_example :
    All
      (Good file_a (some old) (some new))
      (write_core machine 4 file_a new options (required_write lock true) start).1.trace
write_core_atomic_example =
    write_core_atomic a-IsOrdinary (some old) machine 4 new options (required_write lock true) start
      a-Ready

write_core-Shows_example :
    Ends
      (λ u. Shows file_a (some new))
      (λ e w'. Shows file_a (some old) w' ⊎ Shows file_a (some new) w')
      (write_core machine 4 file_a new options (required_write lock true) start)
write_core-Shows_example =
    write_core-Shows a-IsOrdinary (some old) machine 4 new options (required_write lock true) start
      a-Ready

write_core_durable_example :
    Ends
      (λ u w'. Shows file_a (some new) w' × (crashed_early w'.fs file_a ≡ some new))
      (λ e w'. Good file_a (some old) (some new) w'.fs)
      (write_core machine 4 file_a new options (required_write lock true) start)
write_core_durable_example =
    write_core_durable a-IsOrdinary (some old) machine 4 new options (required_write lock true)
      start a-Ready refl

lock-IsOrdinary : IsOrdinary (lock_path file_a)
unfolding is_tmp_name starts_with lock_path
lock-IsOrdinary = record { no_tmp = refl; no_probe = refl }

a-ne-lock : file_a ≢ lock_path file_a
a-ne-lock e = lock_path-ne file_a (sym e)

-- Another process holds the lock.
abbrev locked : World
locked = world_of (two_files file_a old (lock_path file_a) (codes "{}")) (fail (other_errno 5) ∷ [])

write_core_excluded_example :
    Ends
      (λ u w'. ⊥)
      (λ e w'. Shows file_a (some old) w' × Shows (lock_path file_a) (some (codes "{}")) w')
      (write_core machine 4 file_a new options (required_write lock true) locked)
write_core_excluded_example =
    write_core_excluded a-IsOrdinary lock-IsOrdinary (some old) (codes "{}") machine 4 new options
      (required_write lock true) locked
      (first-Ready file_a (lock_path file_a) old (codes "{}") _ a-ne-lock)
      (second-Ready file_a (lock_path file_a) old (codes "{}") _) refl

move_atomic_no_overwrite_example :
    Ends
      (λ u w'. ⊥)
      (λ e. Shows file_a (some old))
      (move_atomic machine file_b file_a false strict start)
move_atomic_no_overwrite_example =
    move_atomic_no_overwrite a-IsOrdinary old machine file_b strict start a-Ready

check_safety-Verdict_example :
    Ends
      (λ report w'.
        Verdict strict
          (required_write lock true)
          report
          w'
          (check_safety machine [] (required_write lock true) strict start))
      (λ e w'. check_safety machine [] (required_write lock true) strict start ≡ (raised e, w'))
      (inspect_guarantees machine [] start)
check_safety-Verdict_example =
    check_safety-Verdict machine [] (required_write lock true) strict start
      (λ e. omega (arith, ap rank e))
  where
    rank : SafetyPolicy → ℕ
    rank best_effort = 1
    rank _ = 0

abbrev pub plain : Options
plain = record options { concurrency = unlocked; write_checksum = false; safety = best_effort }

abbrev pub calm : World
calm = world_of (two_files file_a old file_b old) []

no_tmp_yet : calm.fs.names (record { dir = []; name = tmp_name machine 0 }) ≡ none
unfolding tmp_name decimal list_beq path_beq
no_tmp_yet = refl

root_is_dir : calm.fs.is_dir [] ≡ true
unfolding list_beq
root_is_dir = refl

pub calm-Plain : Plain machine file_a plain calm
calm-Plain = record {
  quiet = refl;
  present_dir = root_is_dir;
  free = no_tmp_yet;
  no_lock = refl;
  no_gate = refl;
  no_sidecar = refl;
}

write_core_returns_example :
    Ends
      (λ u. Shows file_a (some new))
      (λ e w'. ⊥)
      (write_core machine 4 file_a new plain (required_write unlocked false) calm)
write_core_returns_example =
    write_core_returns a-IsOrdinary (some old) machine 4 new plain (required_write unlocked false)
      calm (first-Ready file_a file_b old old [] a-ne-b) calm-Plain

b-IsBystander : IsBystander file_a file_b
unfolding is_tmp_name starts_with lock_path checksum_path
b-IsBystander = record {
  ordinary = record { no_tmp = refl; no_probe = refl };
  no_target = a-ne-b;
  no_lock = λ e. omega (arith, ap (λ (p : FilePath). length p.name) e);
  no_checksum = λ e. omega (arith, ap (λ (p : FilePath). length p.name) e);
}

write_core_bystander_example :
    All
      (Good file_b (some old) (some old))
      (write_core machine 4 file_a new options (required_write lock true) start).1.trace
    × Shows file_b
        (some old)
        (write_core machine 4 file_a new options (required_write lock true) start).1
write_core_bystander_example =
    write_core_bystander b-IsBystander old machine 4 new options (required_write lock true) start
      (second-Ready file_a file_b old old _)
