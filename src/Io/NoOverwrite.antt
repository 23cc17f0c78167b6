-- ===== src/Io/NoOverwrite.antt =====
-- `move_atomic` without `force`.
use safeatomic.Prelude.{◌≡◌, refl, ◌∙◌, Bool, true, false, ◌&&◌, some, Bytes, if◌then◌else◌}
use safeatomic.Prelude.Eq.{◌==◌, nat_eq}
use safeatomic.Constants.{SafetyPolicy}
use safeatomic.Sys.Errors.{Exception, os_error, enoent, eexist}
use safeatomic.Sys.Fs.{FilePath}
use safeatomic.Sys.World.{World}
use safeatomic.Sys.Exec.{Result, ok, raised, pure, raise}
use safeatomic.Sys.Calls.{exists}
use safeatomic.Sys.Logic.Keeps.{
  Keeps, Keeps-bind, Keeps-try_except, Keeps-pure, Keeps-raise, Keeps-if,
}
use safeatomic.Sys.Logic.Ends.{Ends, Triple, Triple-bind, Triple-of_Keeps, Triple-weaken}
use safeatomic.Sys.Logic.Exists.{exists-Asked}
use safeatomic.Sys.Files.Frame.{later-Holds, Keeps-stat_device, Keeps-stat_dir}
use safeatomic.Host.{Host}
use safeatomic.Ordinary.{IsOrdinary}
use safeatomic.Locks.Exclusion.{Standing, standing, named_of_text}
use safeatomic.Io.Frame.{Keeps-check_safety}
use safeatomic.Io.Move.{devices, same_if_missing, move_atomic}
use safeatomic.Io.Safety.{required_move}
use safeatomic.Io.Promises.{Ready, Shows, Before-of_Ready}

module _ {dst : FilePath} (o : IsOrdinary dst) (text : Bytes) where
  same_if_missing-Keeps : (e : Exception) → Keeps (Standing dst text) (same_if_missing e)
  same_if_missing-Keeps (os_error enoent) = Keeps-pure _
  same_if_missing-Keeps (os_error _) = Keeps-raise _
  same_if_missing-Keeps _ = Keeps-raise _

  devices-Keeps : (src : FilePath) → Keeps (Standing dst text) (devices src dst)
  unfolding devices
  devices-Keeps src =
      Keeps-try_except _ _
        (Keeps-bind _ _ (Keeps-stat_device (standing text) src)
          (λ m. Keeps-bind _ _ (Keeps-stat_dir (standing text) dst.dir) (λ n. Keeps-pure _)))
        same_if_missing-Keeps

  exists-Standing :
      Triple
        (Standing dst text)
        (exists dst)
        (λ b w. Standing dst text w × (b ≡ true))
        (λ e. Standing dst text)
  exists-Standing =
      Triple-weaken _ (exists-Asked (Standing dst text) later-Holds dst)
        (λ b w h.
          let (i, f) = named_of_text (w.fs.names dst) w.fs.body text h.0.settled.seen in
          (h.0, h.1 ∙ rw f refl))
        (λ e w h. h)

  refuse :
      (found : Bool) (w : World)
      → Standing dst text w × (found ≡ true)
      → Ends
          (λ u w'. ⊥)
          (λ e. Standing dst text)
          ((if found && true then raise {A = Unit {0}} (os_error eexist) else pure tt) w)
  unfolding raise
  refuse true w h = h.0
  refuse false w h = absurd (cc h.1)

  move_atomic-Standing :
      (host : Host) (src : FilePath) (safety : SafetyPolicy)
      → Triple
          (Standing dst text)
          (move_atomic host src dst false safety)
          (λ u w. ⊥)
          (λ e. Standing dst text)
  unfolding move_atomic
  move_atomic-Standing host src safety =
      Triple-bind _ _
        (Triple-of_Keeps _ (Keeps-check_safety o (standing text) host dst.dir required_move safety))
        (λ u. Triple-bind _ _ (Triple-of_Keeps _ (devices-Keeps src)) (λ d.
          Triple-bind _ _
            (Triple-of_Keeps _ (Keeps-if (d.0 == d.1) _ _ (Keeps-pure _) (Keeps-raise _)))
            (λ x. Triple-bind _ _ exists-Standing (λ found.
              Triple-bind _ _ (record { at = refuse found })
                (λ y. record { at = λ w h. absurd h })))))

shown :
    (dst : FilePath) (text : Bytes) (x : Result (Unit {0}) × World)
    → Ends (λ u w. ⊥) (λ e. Standing dst text) x
    → Ends (λ u w. ⊥) (λ e. Shows dst (some text)) x
shown dst text (ok u, w) h = h
shown dst text (raised e, w) h = (h.settled.seen, h.settled.late)

-- Let the destination be an ordinary name and at rest (`Ready`) with a text. Then `move_atomic`
-- with `force=False` raises for every list of faults, and the destination is as it was, also
-- after a crash with its entry on the disk.
pub move_atomic_no_overwrite :
    {dst : FilePath} (o : IsOrdinary dst) (text : Bytes) (host : Host) (src : FilePath)
    (safety : SafetyPolicy) (w : World)
    → Ready dst (some text) w
    → Ends (λ u w'. ⊥) (λ e. Shows dst (some text)) (move_atomic host src dst false safety w)
move_atomic_no_overwrite {dst} o text host src safety w r =
    shown dst text _ ((move_atomic-Standing o text host src safety).at w (Before-of_Ready r))
