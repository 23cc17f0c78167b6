-- ===== src/Io/Writer/Abort.antt =====
-- `abort` of a writer, and the release of its lock.
use safeatomic.Prelude.{ℕ, ◌≢◌, refl, ◌⊎◌, true, false, Option, [], Bytes}
use safeatomic.Sys.Fs.{FilePath}
use safeatomic.Sys.World.{World}
use safeatomic.Sys.Exec.{when}
use safeatomic.Sys.Logic.Keeps.{Keeps}
use safeatomic.Sys.Method.Sat.{Sat, Sat-assign, Sat-bind, Sat-return}
use safeatomic.Sys.Method.Shape.{At, At-assign, At-with_self}
use safeatomic.Sys.Files.Holds.{Holds, Range}
use safeatomic.Host.{Host}
use safeatomic.Ordinary.{IsOrdinary}
use safeatomic.Io.Safety.{is_lock}
use safeatomic.Io.Write.{Options, release_lock_suppress}
use safeatomic.Io.Writer.{AtomicWriter, discard, release, abort}
use safeatomic.Io.Staged.{Before, before}
use safeatomic.Io.Staged.Place.{after}
use safeatomic.Io.Visibility.{release-Keeps}
use safeatomic.Io.Writer.Phases.{
  opened, empty, Unplaced, Placed, lift-Unplaced, lift-Placed, lift-Before, discard-Before,
  discard-Unplaced, discard-Placed,
}

module _ {target : FilePath} (o : IsOrdinary target) (old new : Option Bytes) (host : Host)
    (chunk_size : ℕ) (options : Options) where
  -- Nothing was placed, or the writer is done.
  abbrev pub Ended : AtomicWriter → World → Type 0
  Ended s w = Unplaced target old new s w ⊎ Placed target old new s w

  pub unlock-Keeps :
      {c d a b v : Option Bytes} (r : Range c d a b v)
      → Keeps
          (Holds target c d a b v)
          (when (is_lock options.concurrency) (release_lock_suppress host chunk_size target))
  unlock-Keeps r = release-Keeps o old host chunk_size [] r (is_lock options.concurrency)

  pub release-Unplaced :
      Sat
        (Unplaced target old new)
        (release host chunk_size target options)
        (λ u. Unplaced target old new)
        (λ e. Unplaced target old new)
  unfolding release
  release-Unplaced = lift-Unplaced target old new _ (unlock-Keeps (before old new))

  pub release-Placed :
      Sat
        (Placed target old new)
        (release host chunk_size target options)
        (λ u. Placed target old new)
        (λ e. Placed target old new)
  unfolding release
  release-Placed = lift-Placed target old new _ (unlock-Keeps (after old new))

  pub abort-Before :
      (tmp : FilePath) (fd : ℕ)
      → tmp ≢ target
      → Sat
          (At (opened tmp fd) (Before target old new))
          (abort host chunk_size target options)
          (λ u. At (empty false true) (Before target old new))
          (λ e. Unplaced target old new)
  unfolding abort release
  abort-Before tmp fd ne = Sat-bind _ _ (discard-Before target old new tmp fd ne) (λ u.
      Sat-bind _ _ (At-assign (empty false false) _) (λ u.
        lift-Before target old new (empty false true) _ tt refl (unlock-Keeps (before old new))))

  pub abort-Aborted :
      Sat
        (At (empty false true) (Before target old new))
        (abort host chunk_size target options)
        (λ u. At (empty false true) (Before target old new))
        (λ e. Unplaced target old new)
  unfolding abort release discard
  abort-Aborted =
      Sat-bind _ _
        (Sat-bind _ _ (At-with_self (empty false true) _ (Sat-return tt (λ s w h. h)))
          (λ u. At-with_self (empty false true) _ (Sat-return tt (λ s w h. h))))
        (λ u. Sat-bind _ _ (At-assign (empty false true) _) (λ u.
          lift-Before target old new (empty false true) _ tt refl (unlock-Keeps (before old new))))

  pub abort-Unplaced :
      Sat
        (Unplaced target old new)
        (abort host chunk_size target options)
        (λ u. Unplaced target old new)
        (λ e. Unplaced target old new)
  unfolding abort
  abort-Unplaced = Sat-bind _ _ (discard-Unplaced target old new) (λ u.
      Sat-bind _ _
        (Sat-assign {Q = λ u. Unplaced target old new} _
          (λ s w h. record { apart = h.apart; uncommitted = h.uncommitted; holds = h.holds }))
        (λ u. release-Unplaced))

  pub abort-Placed :
      Sat
        (Placed target old new)
        (abort host chunk_size target options)
        (λ u. Placed target old new)
        (λ e. Placed target old new)
  unfolding abort
  abort-Placed = Sat-bind _ _ (discard-Placed target old new) (λ u.
      Sat-bind _ _
        (Sat-assign {Q = λ u. Placed target old new} _ (λ s w h. record {
          no_tmp = h.no_tmp;
          no_fd = h.no_fd;
          committed = h.committed;
          holds = h.holds;
        }))
        (λ u. release-Placed))
