-- ===== src/Doctor/Bystander.antt =====
-- The whole of `doctor`, for a file that it diagnoses or that stands beside.
use safeatomic.Prelude.{◌≡◌, Bool, false, ◌&&◌, Option, List, Str, Bytes, All}
use safeatomic.Text.{starts_with}
use safeatomic.Sys.Fs.{Dir, FilePath}
use safeatomic.Sys.World.{World}
use safeatomic.Sys.Logic.Keeps.{Keeps, Keeps-bind, Keeps-if, Keeps-pure, Keeps-gets}
use safeatomic.Sys.Files.Holds.{Range, Holds, Good}
use safeatomic.Host.{Host}
use safeatomic.Ordinary.{IsOrdinary}
use safeatomic.Capabilities.Frame.{Keeps-detect_environment}
use safeatomic.Guarantees.{inspect_guarantees}
use safeatomic.Io.Staged.{before}
use safeatomic.Io.Promises.{Ready, Shows, Before-of_Ready}
use safeatomic.Doctor.Probe.{doctor_tmp_prefix}
use safeatomic.Doctor.Run.{probes, doctor}
use safeatomic.Doctor.Frame.{
  Keeps-check_parent_exists, Keeps-check_parent_writable, Keeps-all_probes,
}

module _ {target : FilePath} (ordinary : IsOrdinary target)
    (apart : starts_with target.name doctor_tmp_prefix ≡ false) {c d a b v : Option Bytes}
    (r : Range c d a b v) (host : Host) (access : Dir → Bool) where
  Keeps-probes :
      (p : Dir) (destructive : Bool)
      → Keeps (Holds target c d a b v) (probes host access p destructive)
  unfolding probes
  Keeps-probes p destructive = Keeps-bind _ _ (Keeps-gets _) (λ found.
      Keeps-if (destructive && found) _ _ (Keeps-all_probes apart r host p access) (Keeps-pure _))

  Keeps-doctor :
      (resolved : Dir) (destructive : Bool) (require : Option (List Str))
      → Keeps (Holds target c d a b v) (doctor host access resolved destructive require)
  unfolding doctor inspect_guarantees
  Keeps-doctor resolved destructive require = Keeps-bind _ _ (Keeps-gets _) (λ is_directory.
      Keeps-bind _ _ (Keeps-detect_environment ordinary r host _) (λ env.
        Keeps-bind _ _
          (Keeps-bind _ _ (Keeps-detect_environment ordinary r host _) (λ e. Keeps-pure _))
          (λ guarantees. Keeps-bind _ _ (Keeps-check_parent_exists _) (λ x.
            Keeps-bind _ _ (Keeps-check_parent_writable access _)
              (λ y. Keeps-bind _ _ (Keeps-probes _ destructive) (λ z. Keeps-pure _))))))

-- Let a file be at rest (`Ready`), with a name that is ordinary (`IsOrdinary`: none that the package
-- makes up for a temporary file or a capability probe) and does not begin with
-- ".safeatomic-doctor-". Whatever path `doctor` is given, with or without `destructive`, for every
-- list of faults and whether it returns or raises, every file system that one of its calls leaves
-- shows the file's text unchanged, also after a crash, and so does the last.
pub doctor_bystander :
    {target : FilePath} (ordinary : IsOrdinary target)
    (apart : starts_with target.name doctor_tmp_prefix ≡ false) (old : Option Bytes) (host : Host)
    (access : Dir → Bool) (resolved : Dir) (destructive : Bool) (require : Option (List Str))
    (w : World)
    → Ready target old w
    → All (Good target old old) (doctor host access resolved destructive require w).1.trace
      × Shows target old (doctor host access resolved destructive require w).1
doctor_bystander {target} ordinary apart old host access resolved destructive require w r =
    let h =
      (Keeps-doctor ordinary apart (before old old) host access resolved destructive require).at w
        (Before-of_Ready r) in
    (h.past, (h.settled.seen, h.settled.late))
