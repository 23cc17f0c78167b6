-- ===== src/Io/Safety.antt =====
-- `_check_safety` and the sets of guarantees that the operations ask for.
use safeatomic.Prelude.{Bool, true, false, not, ◌&&◌, ◌||◌, List, [], ◌∷◌}
use safeatomic.Constants.{SafetyPolicy, warn, best_effort, ConcurrencyPolicy, lock, unlocked}
use safeatomic.Sys.Errors.{unsupported_environment_error}
use safeatomic.Sys.Fs.{Dir}
use safeatomic.Sys.Exec.{Exec, pure, raise, warn_unsupported, ◌>>=◌}
use safeatomic.Host.{Host}
use safeatomic.Guarantees.{
  GuaranteeName, atomic_visibility, reader_consistency, crash_durability, writer_exclusion,
  integrity_detection, cross_device_safety, GuaranteeReport, guarantee_names, is_level_guaranteed,
  select, inspect_guarantees,
}

-- A set of guarantees by its members.
abbrev pub Required : Type 0
Required = GuaranteeName → Bool

abbrev pub required_write_none : Required
required_write_none atomic_visibility = true
required_write_none crash_durability = true
required_write_none _ = false

abbrev pub required_write_lock : Required
required_write_lock writer_exclusion = true
required_write_lock name = required_write_none name

abbrev pub required_write_checksum : Required
required_write_checksum integrity_detection = true
required_write_checksum name = required_write_none name

abbrev pub required_read : Required
required_read reader_consistency = true
required_read _ = false

abbrev pub required_read_checksum : Required
required_read_checksum integrity_detection = true
required_read_checksum name = required_read name

abbrev pub required_move : Required
required_move atomic_visibility = true
required_move cross_device_safety = true
required_move _ = false

abbrev pub is_lock : ConcurrencyPolicy → Bool
is_lock lock = true
is_lock unlocked = false

-- What a write asks for: `required | _REQUIRED_WRITE_LOCK`, `required | _REQUIRED_WRITE_CHECKSUM`.
unfoldable pub required_write : ConcurrencyPolicy → Bool → Required
required_write concurrency write_checksum name =
    required_write_none name
    || (is_lock concurrency && required_write_lock name
        || write_checksum && required_write_checksum name)

-- The required guarantees that the report does not give.
unfoldable pub failed_guarantees : GuaranteeReport → Required → List GuaranteeName
unfolding guarantee_names
failed_guarantees report required =
    select (λ name. required name && not (is_level_guaranteed (report.guarantees name)))
      guarantee_names

-- A word that is no policy counts as "strict" here.
unfoldable pub decide : SafetyPolicy → List GuaranteeName → Exec (Unit {0})
decide safety [] = pure tt
decide warn (name ∷ names) = warn_unsupported
decide _ (name ∷ names) = raise unsupported_environment_error

unfoldable pub check_against : Host → Dir → Required → SafetyPolicy → Exec (Unit {0})
check_against host p required safety = do
  report ← inspect_guarantees host p
  decide safety (failed_guarantees report required)

unfoldable pub check_safety : Host → Dir → Required → SafetyPolicy → Exec (Unit {0})
unfolding check_against
check_safety host p required best_effort = pure tt
check_safety host p required safety = check_against host p required safety
