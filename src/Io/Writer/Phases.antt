-- ===== src/Io/Writer/Phases.antt =====
-- Each method of the writer, by the shape of its fields and what the target shows.
use safeatomic.Prelude.{ℕ, ◌≡◌, ◌≢◌, refl, Bool, true, false, Option, none, some, Bytes}
use safeatomic.Sys.Fs.{FilePath}
use safeatomic.Sys.World.{World}
use safeatomic.Sys.Exec.{Exec}
use safeatomic.Sys.Logic.Keeps.{Keeps, Keeps-suppress_os}
use safeatomic.Sys.Logic.Ends.{Triple-of_Keeps, Ends-weaken}
use safeatomic.Sys.Method.{lift}
use safeatomic.Sys.Method.Sat.{
  Sat, Sat-lift, Sat-assign, Sat-with_self, Sat-bind, Sat-return, Sat-weaken,
}
use safeatomic.Sys.Method.Shape.{At, At-lift, At-assign, At-with_self}
use safeatomic.Sys.Files.Frame.{Keeps-unlink}
use safeatomic.Sys.Files.Descriptors.{Keeps-close}
use safeatomic.Io.Writer.{AtomicWriter, set_fd, set_tmp, close_open, unlink_left, discard}
use safeatomic.Io.Staged.{Before, before}
use safeatomic.Io.Staged.Place.{After}

-- The writer with its temporary file open, with the file closed, and with nothing left.
abbrev pub opened : FilePath → ℕ → AtomicWriter
opened tmp fd = record { tmp = some tmp; fd = some fd; committed = false; aborted = false }

abbrev pub shut : FilePath → AtomicWriter
shut tmp = record { tmp = some tmp; fd = none; committed = false; aborted = false }

abbrev pub empty : Bool → Bool → AtomicWriter
empty committed aborted = record { tmp = none; fd = none; committed = committed; aborted = aborted }

-- The temporary file that the writer has, if any, is not the target.
abbrev pub IsApart : FilePath → Option FilePath → Type 0
IsApart target none = Unit
IsApart target (some tmp) = tmp ≢ target

-- Nothing was placed.
pub record Unplaced (target : FilePath) (old new : Option Bytes) (s : AtomicWriter) (w : World)
    : Type 0 where
  pub apart : IsApart target s.tmp
  pub uncommitted : s.committed ≡ false
  pub holds : Before target old new w

-- The writer is done with its file, which has replaced the target.
pub record Placed (target : FilePath) (old new : Option Bytes) (s : AtomicWriter) (w : World)
    : Type 0 where
  pub no_tmp : s.tmp ≡ none
  pub no_fd : s.fd ≡ none
  pub committed : s.committed ≡ true
  pub holds : After target old new w

module _ (target : FilePath) (old new : Option Bytes) where
  pub Unplaced-of_At :
      (c : AtomicWriter)
      → IsApart target c.tmp
      → c.committed ≡ false
      → (s : AtomicWriter) (w : World) → At c (Before target old new) s w
      → Unplaced target old new s w
  Unplaced-of_At c a u s w h = record { apart = rw h.0 a; uncommitted = rw h.0 u; holds = h.1 }

  -- A call that leaves the target alone, made by a writer of a known shape.
  pub lift-Before :
      {A : Type 0} (c : AtomicWriter) (m : Exec A)
      → IsApart target c.tmp
      → c.committed ≡ false
      → Keeps (Before target old new) m
      → Sat
          (At c (Before target old new))
          (lift m)
          (λ a. At c (Before target old new))
          (λ e. Unplaced target old new)
  lift-Before c m a u k =
      Sat-weaken _ (At-lift c m (Triple-of_Keeps m k)) (λ x s w h. h) (λ e. Unplaced-of_At c a u)

  -- The same for a writer of any shape.
  pub lift-Unplaced :
      {A : Type 0} (m : Exec A)
      → Keeps (Before target old new) m
      → Sat
          (Unplaced target old new)
          (lift m)
          (λ a. Unplaced target old new)
          (λ e. Unplaced target old new)
  lift-Unplaced m k = Sat-lift m (λ s. record {
    at = λ w h.
        Ends-weaken (λ a. Before target old new) (λ a. Unplaced target old new s)
          (λ e. Before target old new) (λ e. Unplaced target old new s) (m w)
          ((Triple-of_Keeps m k).at w h.holds)
          (λ a u q. record { apart = h.apart; uncommitted = h.uncommitted; holds = q })
          (λ e u q. record { apart = h.apart; uncommitted = h.uncommitted; holds = q });
  })

  pub lift-Placed :
      {A : Type 0} (m : Exec A)
      → Keeps (After target old new) m
      → Sat
          (Placed target old new)
          (lift m)
          (λ a. Placed target old new)
          (λ e. Placed target old new)
  lift-Placed m k = Sat-lift m (λ s. record {
    at = λ w h.
        Ends-weaken (λ a. After target old new) (λ a. Placed target old new s)
          (λ e. After target old new) (λ e. Placed target old new s) (m w)
          ((Triple-of_Keeps m k).at w h.holds)
          (λ a u q. record {
            no_tmp = h.no_tmp;
            no_fd = h.no_fd;
            committed = h.committed;
            holds = q;
          })
          (λ e u q. record {
            no_tmp = h.no_tmp;
            no_fd = h.no_fd;
            committed = h.committed;
            holds = q;
          });
  })

  -- A writer with an open file closes and removes it.
  pub discard-Before :
      (tmp : FilePath) (fd : ℕ)
      → tmp ≢ target
      → Sat
          (At (opened tmp fd) (Before target old new))
          discard
          (λ u. At (empty false false) (Before target old new))
          (λ e. Unplaced target old new)
  unfolding discard set_fd set_tmp
  discard-Before tmp fd ne =
      Sat-bind _ _
        (At-with_self (opened tmp fd) _ (
          Sat-bind _ _
            (lift-Before (opened tmp fd) _ ne refl
              (Keeps-suppress_os _ (Keeps-close (before old new) fd)))
            (λ u. At-assign (opened tmp fd) _)))
        (λ u. At-with_self (shut tmp) _ (
          Sat-bind _ _
            (lift-Before (shut tmp) _ ne refl
              (Keeps-suppress_os _ (Keeps-unlink (before old new) tmp ne)))
            (λ u. At-assign (shut tmp) _)))

  close_open-Unplaced :
      (fd : Option ℕ)
      → Sat
          (Unplaced target old new)
          (close_open fd)
          (λ u. Unplaced target old new)
          (λ e. Unplaced target old new)
  unfolding set_fd
  close_open-Unplaced none = Sat-return tt (λ s w h. h)
  close_open-Unplaced (some fd) =
      Sat-bind _ _ (lift-Unplaced _ (Keeps-suppress_os _ (Keeps-close (before old new) fd))) (λ u.
        Sat-assign _
          (λ s w h. record { apart = h.apart; uncommitted = h.uncommitted; holds = h.holds }))

  unlink_left-Unplaced :
      (tmp : Option FilePath)
      → IsApart target tmp
      → Sat
          (Unplaced target old new)
          (unlink_left tmp)
          (λ u. Unplaced target old new)
          (λ e. Unplaced target old new)
  unfolding set_tmp
  unlink_left-Unplaced none a = Sat-return tt (λ s w h. h)
  unlink_left-Unplaced (some tmp) a =
      Sat-bind _ _ (lift-Unplaced _ (Keeps-suppress_os _ (Keeps-unlink (before old new) tmp a)))
        (λ u.
          Sat-assign _
            (λ s w h. record { apart = tt; uncommitted = h.uncommitted; holds = h.holds }))

  pub discard-Unplaced :
      Sat
        (Unplaced target old new)
        discard
        (λ u. Unplaced target old new)
        (λ e. Unplaced target old new)
  unfolding discard
  discard-Unplaced =
      Sat-bind _ _ (Sat-with_self _ (λ s w h. (close_open-Unplaced s.fd).at s w h))
        (λ u. Sat-with_self _ (λ s w h. (unlink_left-Unplaced s.tmp h.apart).at s w h))

  close_open-Placed :
      (fd : Option ℕ)
      → fd ≡ none
      → Sat
          (Placed target old new)
          (close_open fd)
          (λ u. Placed target old new)
          (λ e. Placed target old new)
  close_open-Placed fd e = rw e (Sat-return tt (λ s w h. h))

  unlink_left-Placed :
      (tmp : Option FilePath)
      → tmp ≡ none
      → Sat
          (Placed target old new)
          (unlink_left tmp)
          (λ u. Placed target old new)
          (λ e. Placed target old new)
  unlink_left-Placed tmp e = rw e (Sat-return tt (λ s w h. h))

  -- Nothing is left to discard.
  pub discard-Placed :
      Sat (Placed target old new) discard (λ u. Placed target old new) (λ e. Placed target old new)
  unfolding discard
  discard-Placed =
      Sat-bind _ _ (Sat-with_self _ (λ s w h. (close_open-Placed s.fd h.no_fd).at s w h))
        (λ u. Sat-with_self _ (λ s w h. (unlink_left-Placed s.tmp h.no_tmp).at s w h))
