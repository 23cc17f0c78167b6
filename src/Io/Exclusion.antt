-- ===== src/Io/Exclusion.antt =====
-- Writers with the policy "lock" while another holds the lock.
use safeatomic.Prelude.{ℕ, ◌≡◌, true, Bool, false, Option, some, Bytes, if◌then◌else◌}
use safeatomic.Constants.{lock}
use safeatomic.Sys.Errors.{lock_error}
use safeatomic.Sys.Fs.{FilePath}
use safeatomic.Sys.World.{World}
use safeatomic.Sys.Exec.{Result, ok, raised, pure, raise}
use safeatomic.Sys.Logic.Keeps.{Keeps-both}
use safeatomic.Sys.Logic.Ends.{Ends, Ends-both, Triple, Triple-bind, Triple-of_Keeps}
use safeatomic.Host.{Host}
use safeatomic.Ordinary.{IsOrdinary}
use safeatomic.Paths.{lock_path}
use safeatomic.Locks.Acquire.{try_acquire_lock}
use safeatomic.Paths.Laws.{lock_path-ne}
use safeatomic.Locks.Frame.{Keeps-try_acquire_lock}
use safeatomic.Locks.Exclusion.{Standing, standing, try_acquire_lock-Denied}
use safeatomic.Io.Safety.{Required}
use safeatomic.Io.Write.{Options, acquire_lock, write_core}
use safeatomic.Io.Frame.{Keeps-check_safety}
use safeatomic.Io.Staged.{Before, before}
use safeatomic.Io.Promises.{Ready, Shows, Before-of_Ready}

abbrev Excluded : FilePath → Option Bytes → Bytes → World → Type 0
Excluded target old payload w = Before target old old w × Standing (lock_path target) payload w

module _ {target : FilePath} (o : IsOrdinary target) (ol : IsOrdinary (lock_path target))
    (old : Option Bytes) (payload : Bytes) (host : Host) (chunk_size : ℕ) where
  refuse :
      (b : Bool) (w : World)
      → Before target old old w × (Standing (lock_path target) payload w × (b ≡ false))
      → Ends
          (λ u w'. ⊥)
          (λ e. Excluded target old payload)
          ((if b then pure tt else raise lock_error) w)
  unfolding raise
  refuse true w h = absurd (cc h.1.1)
  refuse false w h = (h.0, h.1.0)

  acquire_lock-Excluded :
      (options : Options)
      → Triple
          (Excluded target old payload)
          (acquire_lock host chunk_size target options)
          (λ u w. ⊥)
          (λ e. Excluded target old payload)
  unfolding acquire_lock
  acquire_lock-Excluded options =
      Triple-bind _ _
        (record {
          at = λ w h.
              Ends-both (Before target old old) _ _ (acquired w)
                ((Keeps-try_acquire_lock (before old old) host target (lock_path-ne target)
                    options.session options.retries options.delay options.safety).at
                  w h.0)
                ((try_acquire_lock-Denied target payload host options.session options.retries
                    options.delay options.safety).at
                  w h.1);
        })
        (λ b. record { at = refuse b })
    where
      acquired : World → Result Bool × World
      acquired =
          try_acquire_lock host target options.session options.retries options.delay options.safety

  write_core-Excluded :
      (text : Bytes) (options : Options) (required : Required)
      → options.concurrency ≡ lock
      → Triple
          (Excluded target old payload)
          (write_core host chunk_size target text options required)
          (λ u w. ⊥)
          (λ e. Excluded target old payload)
  unfolding write_core acquire_lock
  write_core-Excluded text options required l =
      Triple-bind _ _
        (Triple-of_Keeps _ (
          Keeps-both _
            (Keeps-check_safety o (before old old) host target.dir required options.safety)
            (Keeps-check_safety ol (standing payload) host target.dir required options.safety)))
        (λ u.
          Triple-bind _ _ (rw l (acquire_lock-Excluded options))
            (λ x. record { at = λ w h. absurd h }))

shown :
    (target : FilePath) (old : Option Bytes) (payload : Bytes) (x : Result (Unit {0}) × World)
    → Ends (λ u w. ⊥) (λ e. Excluded target old payload) x
    → Ends (λ u w. ⊥) (λ e w. Shows target old w × Shows (lock_path target) (some payload) w) x
shown target old payload (ok u, w) h = h
shown target old payload (raised e, w) h =
    ((h.0.settled.seen, h.0.settled.late), (h.1.settled.seen, h.1.settled.late))

module _ {target : FilePath} (o : IsOrdinary target) (ol : IsOrdinary (lock_path target))
    (old : Option Bytes) (payload : Bytes) (host : Host) (chunk_size : ℕ) (text : Bytes)
    (options : Options) (required : Required) (w : World) (r : Ready target old w)
    (rl : Ready (lock_path target) (some payload) w) where
  -- Let the target and its lock sidecar be ordinary names and at rest (`Ready`), the sidecar
  -- with some payload, and let the policy be "lock". Then for every list of faults and every
  -- number of retries `write_core` raises, and both files are as they were, also after a crash
  -- with their entries on the disk.
  pub write_core_excluded :
      options.concurrency ≡ lock
      → Ends
          (λ u w'. ⊥)
          (λ e w'. Shows target old w' × Shows (lock_path target) (some payload) w')
          (write_core host chunk_size target text options required w)
  write_core_excluded l = shown target old payload _ (
      (write_core-Excluded o ol old payload host chunk_size text options required l).at w
        (Before-of_Ready r, Before-of_Ready rl))
