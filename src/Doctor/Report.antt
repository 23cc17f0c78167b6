-- ===== src/Doctor/Report.antt =====
-- `DoctorCheck`, `DoctorReport` and `_evaluate_require`. Details are messages and are left out.
use safeatomic.Prelude.{
  Bool, true, false, ◌&&◌, Option, none, some, List, [], ◌∷◌, Str, codes, if◌then◌else◌,
}
use safeatomic.Prelude.Eq.{◌==◌, nat_eq, list_eq}
use safeatomic.Environment.{Environment}
use safeatomic.Sys.Fs.{Dir}
use safeatomic.Guarantees.{
  GuaranteeName, atomic_visibility, reader_consistency, crash_durability, writer_exclusion,
  stale_recovery, integrity_detection, metadata_preservation, cross_device_safety, guarantee_names,
  GuaranteeReport, is_level_guaranteed,
}

-- "pass", "warn", "fail" and "unknown"
pub data DoctorStatus : Type 0 where
  passed warned failed unknown : DoctorStatus

pub record DoctorCheck : Type 0 where
  pub name : Str
  pub status : DoctorStatus

pub record DoctorReport : Type 0 where
  pub path : Dir
  pub environment : Environment
  pub guarantees : GuaranteeReport
  pub checks : List DoctorCheck
  pub ok : Bool

-- The names as the matrix has them.
abbrev pub formal_name : GuaranteeName → Str
formal_name atomic_visibility = codes "AtomicVisibility"
formal_name reader_consistency = codes "ReaderConsistency"
formal_name crash_durability = codes "CrashDurability"
formal_name writer_exclusion = codes "WriterExclusion"
formal_name stale_recovery = codes "StaleRecovery"
formal_name integrity_detection = codes "IntegrityDetection"
formal_name metadata_preservation = codes "MetadataPreservation"
formal_name cross_device_safety = codes "CrossDeviceSafety"

-- `_GUARANTEE_TO_CHECK_NAME`
abbrev pub check_name : GuaranteeName → Str
check_name atomic_visibility = codes "atomic_visibility"
check_name reader_consistency = codes "reader_consistency"
check_name crash_durability = codes "crash_durability"
check_name writer_exclusion = codes "writer_exclusion"
check_name stale_recovery = codes "stale_recovery"
check_name integrity_detection = codes "integrity_detection"
check_name metadata_preservation = codes "metadata_preservation"
check_name cross_device_safety = codes "cross_device_safety"

abbrev pub find_by : (GuaranteeName → Str) → Str → List GuaranteeName → Option GuaranteeName
find_by spelling name [] = none
find_by spelling name (g ∷ gs) = if spelling g == name then some g else find_by spelling name gs

abbrev pub or_else : Option GuaranteeName → Option GuaranteeName → Option GuaranteeName
or_else (some g) other = some g
or_else none other = other

-- The formal names first, then the check names.
unfoldable pub formal_of : Str → Option GuaranteeName
unfolding guarantee_names
formal_of name =
    or_else (find_by formal_name name guarantee_names) (find_by check_name name guarantee_names)

abbrev pub is_failed : DoctorStatus → Bool
is_failed failed = true
is_failed _ = false

unfoldable pub any_failed : List DoctorCheck → Bool
any_failed [] = false
any_failed (c ∷ checks) = if is_failed c.status then true else any_failed checks

abbrev pub is_met : GuaranteeReport → Option GuaranteeName → Bool
is_met report none = false
is_met report (some g) = is_level_guaranteed (report.guarantees g)

unfoldable pub all_met : List Str → GuaranteeReport → Bool
all_met [] report = true
all_met (name ∷ require) report = is_met report (formal_of name) && all_met require report

abbrev pub met_if_any : Option (List Str) → GuaranteeReport → Bool
met_if_any none report = true
met_if_any (some require) report = all_met require report

unfoldable pub evaluate_require : Option (List Str) → GuaranteeReport → List DoctorCheck → Bool
evaluate_require require report checks =
    if any_failed checks then false else met_if_any require report
