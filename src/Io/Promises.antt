-- ===== src/Io/Promises.antt =====
-- What `write_atomic` and `write_atomic_bytes` promise to readers of the target, from any world in
-- which the target is at rest and for every list of faults.
use safeatomic.Prelude.{ℕ, ◌≡◌, ◌⊎◌, inl, inr, Option, some, [], Bytes, All}
use safeatomic.Constants.{strict}
use safeatomic.Sys.Fs.{FilePath, visible, crashed_early, crashed_late}
use safeatomic.Sys.World.{World}
use safeatomic.Sys.Exec.{Result, ok, raised}
use safeatomic.Sys.Logic.Ends.{Ends}
use safeatomic.Sys.Files.{Settled, AllClear, AllLow}
use safeatomic.Sys.Files.Holds.{Good, Calm, Good-of_Settled}
use safeatomic.Host.{Host}
use safeatomic.Ordinary.{IsOrdinary}
use safeatomic.Io.Safety.{Required}
use safeatomic.Io.Write.{Options, write_core}
use safeatomic.Io.Staged.{Before, before}
use safeatomic.Io.Staged.Place.{After, after}
use safeatomic.Io.Durability.{Stage, Durable, durable}
use safeatomic.Io.Visibility.{write_core-After, write_core-Durable}

-- The target is at rest: readers see `old`, also after a crash, no descriptor and no other name leads
-- to it, nothing has been done yet, and the other processes leave it alone.
pub record Ready (target : FilePath) (old : Option Bytes) (w : World) : Type 0 where
  pub settled : Settled target old old old w.fs
  pub clear : AllClear (w.fs.names target) (w.fs.saved_names target) w.fds
  pub held : AllLow w.fs.next w.fds
  pub fresh : w.trace ≡ []
  pub calm : All (Calm target) w.others

-- The last step showed a text, or nothing was done.
abbrev pub Shows : FilePath → Option Bytes → World → Type 0
Shows target text w = (visible w.fs target ≡ text) × (crashed_late w.fs target ≡ text)

pub Before-of_Ready :
    {target : FilePath} {old new : Option Bytes} {w : World}
    → Ready target old w
    → Before target old new w
Before-of_Ready r = record {
  settled = r.settled;
  clear = r.clear;
  held = r.held;
  past = rw r.fresh tt;
  calm = r.calm;
}

-- What the end of an action shows of the whole run.
past_of_Ends :
    (target : FilePath) (old new : Option Bytes) (x : Result (Unit {0}) × World)
    → Ends (λ u. After target old new) (λ e w. Before target old new w ⊎ After target old new w) x
    → All (Good target old new) x.1.trace
past_of_Ends target old new (ok u, w) h = h.past
past_of_Ends target old new (raised e, w) (inl h) = h.past
past_of_Ends target old new (raised e, w) (inr h) = h.past

shown :
    (target : FilePath) (old new : Option Bytes) (x : Result (Unit {0}) × World)
    → Ends (λ u. After target old new) (λ e w. Before target old new w ⊎ After target old new w) x
    → Ends (λ u. Shows target new) (λ e w. Shows target old w ⊎ Shows target new w) x
shown target old new (ok u, w) h = (h.settled.seen, h.settled.late)
shown target old new (raised e, w) (inl h) = inl (h.settled.seen, h.settled.late)
shown target old new (raised e, w) (inr h) = inr (h.settled.seen, h.settled.late)

saved_of_Ends :
    (target : FilePath) (old : Option Bytes) (text : Bytes) (x : Result (Unit {0}) × World)
    → Ends (λ u. Durable target old (some text)) (λ e. Stage target old (some text)) x
    → Ends
        (λ u w. Shows target (some text) w × (crashed_early w.fs target ≡ some text))
        (λ e w. Good target old (some text) w.fs)
        x
saved_of_Ends target old text (ok u, w) h =
    ((h.settled.seen, h.settled.late), elim h.settled.early [ inl e ↦ e | inr e ↦ e ])
saved_of_Ends target old text (raised e, w) (inl h) =
    Good-of_Settled (before old (some text)) w.fs h.settled
saved_of_Ends target old text (raised e, w) (inr (inl h)) =
    Good-of_Settled (after old (some text)) w.fs h.settled
saved_of_Ends target old text (raised e, w) (inr (inr h)) =
    Good-of_Settled (durable old (some text)) w.fs h.settled

module _ {target : FilePath} (o : IsOrdinary target) (old : Option Bytes) (host : Host)
    (chunk_size : ℕ) (text : Bytes) (options : Options) (required : Required) (w : World)
    (r : Ready target old w) where
  -- Let the target be an ordinary file name and at rest (`Ready`: readers see `old` in it, also
  -- after a crash, no descriptor and no other name leads to it, and the other processes leave
  -- it alone), where `old` is `none` if it does not exist. Then for all options and every list
  -- of faults, every file system that a call of `write_core` leaves, whether it returns or
  -- raises, shows `old` or all of the new text: to a reader, and to a reader after a crash with
  -- or without the entry on the disk.
  pub write_core_atomic :
      All
        (Good target old (some text))
        (write_core host chunk_size target text options required w).1.trace
  write_core_atomic =
      past_of_Ends target old (some text) _
        ((write_core-After o old host chunk_size text options required).at w (Before-of_Ready r))

  -- Let the target be an ordinary file name and at rest (`Ready`) with the text `old`. If
  -- `write_core` returns, a reader sees all of the new text, also after a crash if the entry
  -- has reached the disk; if it raises, he sees `old` or all of the new text, in the same
  -- sense.
  pub write_core-Shows :
      Ends
        (λ u. Shows target (some text))
        (λ e w'. Shows target old w' ⊎ Shows target (some text) w')
        (write_core host chunk_size target text options required w)
  write_core-Shows =
      shown target old (some text) _
        ((write_core-After o old host chunk_size text options required).at w (Before-of_Ready r))

  -- Let the target be an ordinary file name and at rest (`Ready`) with the text `old`, and let
  -- the policy be "strict". If `write_core` returns, a reader sees all of the new text now and
  -- after any crash. If it raises, he sees `old` or all of the new text, now and after a crash.
  pub write_core_durable :
      options.safety ≡ strict
      → Ends
          (λ u w'. Shows target (some text) w' × (crashed_early w'.fs target ≡ some text))
          (λ e w'. Good target old (some text) w'.fs)
          (write_core host chunk_size target text options required w)
  write_core_durable s =
      saved_of_Ends target old text _ (
        (write_core-Durable o old host chunk_size text options required s).at w (Before-of_Ready r))
