-- ===== src/Io/Durability.antt =====
-- The directory sync under "strict".
use safeatomic.Prelude.{ℕ, ◌≡◌, ◌⊎◌, refl, inl, inr, Option, none, some, ◌∷◌, Bytes, Bool-cases}
use safeatomic.Prelude.Eq.{nat_eq, list_eq, ==_refl}
use safeatomic.Constants.{strict}
use safeatomic.Sys.Errors.{Exception, is_os_error}
use safeatomic.Sys.Fs.{FilePath, Fs}
use safeatomic.Sys.World.{folder, World}
use safeatomic.Sys.Exec.{Exec, raise, pure, try_except, finally, suppress_os, ◌>>=◌}
use safeatomic.Sys.Calls.{lookup_fd, new_fd, open_dir, fsync, sync_dir, close}
use safeatomic.Sys.Logic.Keeps.{Keeps-suppress_os}
use safeatomic.Sys.Logic.Ends.{
  Triple, Triple-bind, Triple-pure, Triple-try_except, Triple-finally, Triple-of_Keeps,
  Triple-weaken,
}
use safeatomic.Sys.Logic.Move.{later, Triple-call}
use safeatomic.Sys.Files.{Settled}
use safeatomic.Sys.Files.Steps.{sync_dir-Anchored}
use safeatomic.Sys.Files.Frame.{unmoved}
use safeatomic.Sys.Files.Holds.{
  Holds, Range, Good-of_Settled, AllClear-Anchored, AllLow-le, Keeps-call,
}
use safeatomic.Sys.Files.Descriptors.{new_fd-Holds, Keeps-close}
use safeatomic.Io.Fsync.{on_os_error, fsync_dir_handle_failure, open_or_report, fsync_dir}
use safeatomic.Io.Staged.Place.{After, after}

-- The new text is what a reader gets now and after any crash.
abbrev pub Durable : FilePath → Option Bytes → Option Bytes → World → Type 0
Durable target old new = Holds target old new new new new

-- How far a write can have come.
abbrev pub Stage : FilePath → Option Bytes → Option Bytes → World → Type 0
Stage target old new w =
    Holds target old new old old old w ⊎ (After target old new w ⊎ Durable target old new w)

abbrev pub durable : (old new : Option Bytes) → Range old new new new new
durable old new = record {
  older = inr refl;
  other = inr refl;
  current = inr refl;
  within = inr refl;
}

synced-Settled :
    {target : FilePath} {a b v : Option Bytes} {fs : Fs}
    → Settled target a b v fs
    → Settled target v v v (sync_dir target.dir fs)
synced-Settled {target} s = record {
  seen = s.seen;
  late = s.late;
  early = rw (==_refl target.dir, s.late) (inl refl);
  low = s.low;
  low_saved = rw (==_refl target.dir) (s.low target);
  alone = s.alone;
  alone_saved = λ q hq. rw (==_refl target.dir) (s.alone q hq);
}

module _ (target : FilePath) (old new : Option Bytes) where
  abbrev Opened : ℕ → World → Type 0
  Opened fd w = After target old new w × (lookup_fd fd w.fds ≡ some (folder target.dir))

  strict_raises :
      {A : Type 0} {Q : A → World → Type 0} (f : Unit {0} → Exec A) (e : Exception)
      → Triple (After target old new) (on_os_error strict e >>= f) Q (λ x. After target old new)
  unfolding fsync_dir_handle_failure ◌>>=◌ raise
  strict_raises f e = record {
    at = λ w h. elim (Bool-cases (is_os_error e)) [ inl g ↦ rw g h | inr g ↦ rw g h ];
  }

  opened : (w : World) → After target old new w → Opened w.next_fd (new_fd (folder target.dir) w).1
  unfolding new_fd
  opened w h = (
    unfold new_fd in new_fd-Holds (after old new) (folder target.dir) w h tt tt,
    rw (==_refl w.next_fd) refl,
  )

  open_dir-Opened :
      Triple (After target old new) (open_dir target.dir) Opened (λ e. After target old new)
  unfolding open_dir
  open_dir-Opened =
      Triple-bind _ _
        (Triple-of_Keeps _ (
          Keeps-call (after old new) _ λ fs s. elim (Bool-cases (fs.is_dir target.dir)) [
            | inl e ↦ rw e (s, unmoved target fs fs refl refl refl)
            | inr e ↦ rw e tt
          ]))
        (λ x. record { at = λ w h. unfold new_fd in opened w h })

  abbrev Reported : Option ℕ → World → Type 0
  Reported none w = ⊥
  Reported (some fd) w = Opened fd w

  open_or_report-Reported :
      Triple
        (After target old new)
        (open_or_report target.dir strict)
        Reported
        (λ e. After target old new)
  unfolding open_or_report
  open_or_report-Reported =
      Triple-try_except _ _ (Triple-bind _ _ open_dir-Opened (λ fd. Triple-pure _ (λ w h. h)))
        (λ e. strict_raises _ e)

  sync_reply :
      (w : World)
      → After target old new w
      → Durable target old new
          (record w { fs = sync_dir target.dir w.fs; trace = sync_dir target.dir w.fs ∷ w.trace })
  sync_reply w h =
      let s = synced-Settled h.settled in
      let an = sync_dir-Anchored h.settled target.dir in
      record {
        settled = s;
        clear = AllClear-Anchored target w.fs _ w.fds an h.clear;
        held = AllLow-le _ _ w.fds an.grows h.held;
        past = (Good-of_Settled (durable old new) _ s, h.past);
        calm = h.calm;
      }

  later-After : (w : World) → After target old new w → After target old new (later w)
  later-After w h = record {
    settled = h.settled;
    clear = h.clear;
    held = h.held;
    past = h.past;
    calm = h.calm;
  }

  fsync-Durable :
      (fd : ℕ)
      → Triple (Opened fd) (fsync fd) (λ x. Durable target old new) (λ e. After target old new)
  unfolding fsync
  fsync-Durable fd = record {
    at = λ w h. rw h.1 (
        (Triple-call (After target old new) (λ x. Durable target old new) _ later-After
            sync_reply).at
          w h.0);
  }

  try_fsync-Durable :
      (fd : ℕ)
      → Triple
          (Opened fd)
          (try_except (fsync fd) (on_os_error strict))
          (λ x. Durable target old new)
          (λ e. After target old new)
  unfolding fsync_dir_handle_failure raise
  try_fsync-Durable fd = Triple-try_except _ _ (fsync-Durable fd) (λ e. record {
    at = λ w h. elim (Bool-cases (is_os_error e)) [ inl g ↦ rw g h | inr g ↦ rw g h ];
  })

  After-report :
      (o : Option ℕ)
      → Triple
          (Reported o)
          (elim o [
            | none ↦ pure tt
            | some fd ↦
                finally (try_except (fsync fd) (on_os_error strict)) (suppress_os (close fd))
          ])
          (λ x. Durable target old new)
          (λ e w. After target old new w ⊎ Durable target old new w)
  After-report none = record { at = λ w h. absurd h }
  After-report (some fd) =
      Triple-finally _ _ (try_fsync-Durable fd)
        (λ x.
          Triple-weaken _
            (Triple-of_Keeps _ (Keeps-suppress_os _ (Keeps-close (durable old new) fd)))
            (λ x w h. h) (λ e w h. inr h))
        (λ e.
          Triple-weaken _ (Triple-of_Keeps _ (Keeps-suppress_os _ (Keeps-close (after old new) fd)))
            (λ x w h. inl h) (λ e w h. inl h))

  -- Under "strict" the sync either reports an error or has put the entry on the disk.
  pub fsync_dir-Durable :
      Triple
        (After target old new)
        (fsync_dir target.dir strict)
        (λ x. Durable target old new)
        (λ e w. After target old new w ⊎ Durable target old new w)
  unfolding fsync_dir
  fsync_dir-Durable =
      Triple-bind _ _ (Triple-weaken _ open_or_report-Reported (λ x w h. h) (λ e w h. inl h))
        After-report
