-- ===== src/Sys/Files/Descriptors.antt =====
-- Every call on a descriptor, and every call that makes one, keeps the target's invariant.
use safeatomic.Prelude.{
  ℕ, ◌<◌, refl, inl, inr, Option, none, some, List, [], ◌∷◌, Bytes, Bool-cases, Option-cases,
}
use safeatomic.Prelude.Eq.{nat_eq}
use safeatomic.Sys.Fs.{Dir, FilePath, path_eq, Fs}
use safeatomic.Sys.World.{Handle, file, folder, World}
use safeatomic.Sys.Exec.{raise, modify}
use safeatomic.Sys.Calls.{
  new_fd, open_dir, write_to, write, fsync_of, fsync, close_of, close, lookup_fd, erase_fd,
}
use safeatomic.Sys.Logic.Keeps.{Keeps, Keeps-bind, Keeps-raise}
use safeatomic.Sys.Logic.Ends.{Triple}
use safeatomic.Sys.Files.{AllLow, Clear, AllClear, Apart}
use safeatomic.Sys.Files.Steps.{
  append_body-Settled, sync_body-Settled, sync_dir-Settled, sync_dir-Anchored,
}
use safeatomic.Sys.Files.Frame.{unmoved}
use safeatomic.Sys.Files.Holds.{
  AllLow-erase, Range, Holds, Keeps-call, call-Holds, AllClear-erase, Clear-lookup,
}

abbrev Cleared : Option ℕ → Option ℕ → Option Handle → Type 0
Cleared n s none = Unit
Cleared n s (some h) = Clear n s h

abbrev pub FreeInode : FilePath → ℕ → Fs → Type 0
FreeInode target i fs = Apart (fs.names target) i × Apart (fs.saved_names target) i × (i < fs.next)

Cleared-lookup :
    (n s : Option ℕ) (k : ℕ) (fds : List (ℕ × Handle))
    → AllClear n s fds
    → Cleared n s (lookup_fd k fds)
Cleared-lookup n s k fds cl = elim (Option-cases (lookup_fd k fds)) [
  | inl e ↦ rw e tt
  | inr (h, e) ↦ rw e (Clear-lookup n s k fds cl e)
]

module _ {target : FilePath} {c d a b v : Option Bytes} (r : Range c d a b v) where
  pub new_fd-Holds :
      (h : Handle) (w : World)
      → Holds target c d a b v w
      → Clear (w.fs.names target) (w.fs.saved_names target) h
      → AllLow w.fs.next ((0, h) ∷ [])
      → Holds target c d a b v (new_fd h w).1
  unfolding new_fd
  new_fd-Holds (file i) w k cl lo = record {
    settled = k.settled;
    clear = (cl, k.clear);
    held = (lo.0, k.held);
    past = k.past;
    calm = k.calm;
  }
  new_fd-Holds (folder f) w k cl lo = record {
    settled = k.settled;
    clear = (cl, k.clear);
    held = k.held;
    past = k.past;
    calm = k.calm;
  }

  pub Triple-new_fd :
      (i : ℕ)
      → Triple
          (λ w. Holds target c d a b v w × FreeInode target i w.fs)
          (new_fd (file i))
          (λ fd. Holds target c d a b v)
          (λ e. Holds target c d a b v)
  unfolding new_fd
  Triple-new_fd i = record { at = λ w p. new_fd-Holds (file i) w p.0 (p.1.0, p.1.1) (p.1.2, tt) }

  write_to-Holds :
      (o : Option Handle) (text : Bytes) (w : World)
      → Holds target c d a b v w
      → Cleared (w.fs.names target) (w.fs.saved_names target) o
      → Holds target c d a b v (write_to o text w).1
  write_to-Holds (some (file i)) text w h cl =
      call-Holds r _ w h
        (append_body-Settled h.settled i _ cl.0, unmoved target w.fs _ refl refl refl)
  write_to-Holds (some (folder f)) text w h cl = h
  write_to-Holds none text w h cl = h

  pub Keeps-write : (fd : ℕ) (text : Bytes) → Keeps (Holds target c d a b v) (write fd text)
  unfolding write
  Keeps-write fd text = record {
    at = λ w h. write_to-Holds (lookup_fd fd w.fds) text w h (Cleared-lookup _ _ fd w.fds h.clear);
  }

  fsync_of-Holds :
      (o : Option Handle) (w : World)
      → Holds target c d a b v w
      → Cleared (w.fs.names target) (w.fs.saved_names target) o
      → Holds target c d a b v (fsync_of o w).1
  unfolding raise
  fsync_of-Holds (some (file i)) w h cl =
      call-Holds r _ w h
        (sync_body-Settled h.settled i cl.0 cl.1, unmoved target w.fs _ refl refl refl)
  fsync_of-Holds (some (folder f)) w h cl =
      call-Holds r _ w h (sync_dir-Settled h.settled f r.within, sync_dir-Anchored h.settled f)
  fsync_of-Holds none w h cl = h

  pub Keeps-fsync : (fd : ℕ) → Keeps (Holds target c d a b v) (fsync fd)
  unfolding fsync
  Keeps-fsync fd = record {
    at = λ w h. fsync_of-Holds (lookup_fd fd w.fds) w h (Cleared-lookup _ _ fd w.fds h.clear);
  }

  Keeps-erase :
      (fd : ℕ) → Keeps (Holds target c d a b v) (modify (λ w. record w { fds = erase_fd fd w.fds }))
  unfolding modify
  Keeps-erase fd = record {
    at = λ w h. record {
      settled = h.settled;
      clear = AllClear-erase _ _ fd w.fds h.clear;
      held = AllLow-erase _ fd w.fds h.held;
      past = h.past;
      calm = h.calm;
    };
  }

  close_of-Keeps : (fd : ℕ) (o : Option Handle) → Keeps (Holds target c d a b v) (close_of fd o)
  close_of-Keeps fd (some h) =
      Keeps-bind _ _ (Keeps-erase fd)
        (λ u. Keeps-call r _ (λ fs s. (s, unmoved target fs fs refl refl refl)))
  close_of-Keeps fd none = Keeps-raise _

  pub Keeps-close : (fd : ℕ) → Keeps (Holds target c d a b v) (close fd)
  unfolding close
  Keeps-close fd = record { at = λ w h. (close_of-Keeps fd (lookup_fd fd w.fds)).at w h }

  pub Keeps-open_dir : (p : Dir) → Keeps (Holds target c d a b v) (open_dir p)
  unfolding open_dir
  Keeps-open_dir p =
      Keeps-bind _ _
        (Keeps-call r _ λ fs s. elim (Bool-cases (fs.is_dir p)) [
          | inl e ↦ rw e (s, unmoved target fs fs refl refl refl)
          | inr e ↦ rw e tt
        ])
        (λ u. record { at = λ w h. new_fd-Holds (folder p) w h tt tt })
