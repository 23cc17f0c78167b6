-- ===== src/Tests/Doctors.antt =====
-- The doctor on the small disk.
use safeatomic.Prelude.{◌≡◌, ◌↔◌, refl, true, false, some, List, [], ◌∷◌, Str, codes, All}
use safeatomic.Text.{starts_with}
use safeatomic.Environment.{local_posix_memory}
use safeatomic.Sys.Files.Holds.{Good}
use safeatomic.Capabilities.{unknown_environment}
use safeatomic.Guarantees.{GuaranteeReport, matrix}
use safeatomic.Io.Promises.{Shows}
use safeatomic.Doctor.Report.{passed, warned, DoctorCheck, evaluate_require}
use safeatomic.Doctor.Probe.{doctor_tmp_prefix, check}
use safeatomic.Doctor.Run.{doctor}
use safeatomic.Doctor.Bystander.{doctor_bystander}
use safeatomic.Doctor.Require.{NotFailed, RequiredOf, evaluate_require_iff}
use safeatomic.Tests.Machine.{machine}
use safeatomic.Tests.Writes.{file_a, old, a-IsOrdinary, start, a-Ready}

a-apart : starts_with file_a.name doctor_tmp_prefix ≡ false
unfolding starts_with
a-apart = refl

abbrev wanted : List Str
wanted = codes "AtomicVisibility" ∷ codes "writer_exclusion" ∷ []

doctor_bystander_example :
    All
      (Good file_a (some old) (some old))
      (doctor machine (λ d. true) [] true (some wanted) start).1.trace
    × Shows file_a (some old) (doctor machine (λ d. true) [] true (some wanted) start).1
doctor_bystander_example =
    doctor_bystander a-IsOrdinary a-apart (some old) machine (λ d. true) [] true (some wanted) start
      a-Ready

abbrev report : GuaranteeReport
report = record {
  environment = unknown_environment machine;
  guarantees = matrix local_posix_memory;
}

abbrev checks : List DoctorCheck
checks = check (codes "parent_exists") passed ∷ check (codes "fsync_dir") warned ∷ []

evaluate_require_iff_example :
    (evaluate_require (some wanted) report checks ≡ true)
    ↔ (All NotFailed checks × RequiredOf (some wanted) report)
evaluate_require_iff_example = evaluate_require_iff (some wanted) report checks
