-- ===== src/Io/Gate/Classes.antt =====
-- Which classes of file system the gates of writes, reads and moves let through.
use safeatomic.Prelude.{◌≡◌, Bool, true, false}
use safeatomic.Constants.{strict, ConcurrencyPolicy}
use safeatomic.Environment.{
  FilesystemClass, local_posix_persistent, local_posix_memory, Environment,
}
use safeatomic.Sys.Errors.{unsupported_environment_error}
use safeatomic.Sys.Fs.{Dir}
use safeatomic.Sys.World.{World}
use safeatomic.Sys.Exec.{Result, ok, raised}
use safeatomic.Sys.Logic.Ends.{Ends}
use safeatomic.Host.{Host}
use safeatomic.Guarantees.{GuaranteeReport, matrix}
use safeatomic.Io.Read.{required_by}
use safeatomic.Io.Safety.{required_write, required_move, check_safety}

-- A file system of this machine, on a disk or in memory.
abbrev pub is_local_posix : FilesystemClass → Bool
is_local_posix local_posix_persistent = true
is_local_posix local_posix_memory = true
is_local_posix _ = false

abbrev pub on_disk : FilesystemClass → Bool
on_disk local_posix_persistent = true
on_disk _ = false

abbrev pub verdict : Bool → Result (Unit {0})
verdict true = ok tt
verdict false = raised unsupported_environment_error

report_of : Environment → FilesystemClass → GuaranteeReport
report_of env c = record { environment = env; guarantees = matrix c }

module _ (host : Host) (p : Dir) (concurrency : ConcurrencyPolicy)
    (write_checksum check_checksum : Bool) (w : World) where
  -- What the strict gates of a write, a read and a move end in.
  abbrev pub Gates : Result (Unit {0}) → Result (Unit {0}) → World → Type 0
  Gates written moved w' =
      (check_safety host p (required_write concurrency write_checksum) strict w ≡ (written, w'))
      × (check_safety host p (required_by host check_checksum) strict w ≡ (moved, w'))
      × (check_safety host p required_move strict w ≡ (moved, w'))
