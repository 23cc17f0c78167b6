-- ===== src/Guarantees.antt =====
-- src/safeatomic/_guarantees.py: the levels that are promised for each class of file system.
pub mod Laws
use safeatomic.Prelude.{Bool, true, false, not, List, [], ◌∷◌, if◌then◌else◌}
use safeatomic.Environment.{
  FilesystemClass, local_posix_persistent, local_posix_memory, network, windows, object_store,
  unknown, Environment,
}
use safeatomic.Sys.Fs.{Dir}
use safeatomic.Sys.Exec.{Exec, pure, ◌>>=◌}
use safeatomic.Host.{Host}
use safeatomic.Capabilities.{detect_environment}

pub data GuaranteeLevel : Type 0 where
  guaranteed best_effort nontarget unsupported : GuaranteeLevel

pub data GuaranteeName : Type 0 where
  atomic_visibility reader_consistency crash_durability writer_exclusion : GuaranteeName
  stale_recovery integrity_detection metadata_preservation cross_device_safety : GuaranteeName

-- In canonical order.
unfoldable pub guarantee_names : List GuaranteeName
guarantee_names =
    atomic_visibility ∷ reader_consistency ∷ crash_durability ∷ writer_exclusion ∷ stale_recovery
    ∷ integrity_detection ∷ metadata_preservation ∷ cross_device_safety ∷ []

-- A row of the matrix for a class on which only the checksum and the device check work.
abbrev degraded_row : GuaranteeLevel → GuaranteeName → GuaranteeLevel
degraded_row level integrity_detection = best_effort
degraded_row level cross_device_safety = guaranteed
degraded_row level _ = level

unfoldable pub matrix : FilesystemClass → GuaranteeName → GuaranteeLevel
matrix local_posix_persistent metadata_preservation = best_effort
matrix local_posix_persistent _ = guaranteed
matrix local_posix_memory crash_durability = unsupported
matrix local_posix_memory metadata_preservation = best_effort
matrix local_posix_memory _ = guaranteed
matrix network name = degraded_row nontarget name
matrix windows name = degraded_row nontarget name
matrix object_store name = degraded_row nontarget name
matrix unknown name = degraded_row unsupported name

pub record GuaranteeReport : Type 0 where
  pub environment : Environment
  pub guarantees : GuaranteeName → GuaranteeLevel

abbrev pub is_level_guaranteed : GuaranteeLevel → Bool
is_level_guaranteed guaranteed = true
is_level_guaranteed _ = false

unfoldable pub is_guaranteed : GuaranteeReport → GuaranteeName → Bool
is_guaranteed report name = is_level_guaranteed (report.guarantees name)

abbrev pub select : (GuaranteeName → Bool) → List GuaranteeName → List GuaranteeName
select p [] = []
select p (name ∷ names) = let rest = select p names in if p name then name ∷ rest else rest

unfoldable pub degraded : GuaranteeReport → List GuaranteeName
unfolding is_guaranteed guarantee_names
degraded report = select (λ name. not (is_guaranteed report name)) guarantee_names

unfoldable pub inspect_guarantees : Host → Dir → Exec GuaranteeReport
inspect_guarantees host p = do
  env ← detect_environment host p
  pure (record { environment = env; guarantees = matrix env.filesystem_class })
