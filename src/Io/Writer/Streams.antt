-- ===== src/Io/Writer/Streams.antt =====
-- What a `with AtomicWriter(...)` block promises to readers of its target.
use safeatomic.Prelude.{ℕ, refl, ◌⊎◌, inl, inr, Option, [], List, Bytes, All}
use safeatomic.Sys.Fs.{FilePath}
use safeatomic.Sys.World.{World}
use safeatomic.Sys.Exec.{Result, ok, raised}
use safeatomic.Sys.Method.Sat.{EndsWith}
use safeatomic.Sys.Files.Holds.{Good}
use safeatomic.Host.{Host}
use safeatomic.Ordinary.{IsOrdinary}
use safeatomic.Io.Write.{Options}
use safeatomic.Io.Promises.{Ready, Shows, Before-of_Ready}
use safeatomic.Io.Writer.{AtomicWriter, Action, new_writer, with_writer}
use safeatomic.Io.Writer.Enter.{committed_text, intended, Over, Done}
use safeatomic.Io.Writer.Block.{with_writer-Done}

module _ {target : FilePath} (o : IsOrdinary target) (old : Option Bytes) (host : Host)
    (chunk_size : ℕ) (options : Options) (plan : Option Bytes) where
  abbrev Finish : Result (Unit {0}) × AtomicWriter × World → Type 0
  Finish =
      EndsWith (λ u. Done o old host chunk_size options plan)
        (λ e. Over o old host chunk_size options plan)

  past_of_Finish :
      (x : Result (Unit {0}) × AtomicWriter × World)
      → Finish x
      → All (Good target old (intended old plan)) x.2.trace
  past_of_Finish (ok u, s, w) (inl h) = h.1.1.past
  past_of_Finish (ok u, s, w) (inr h) = h.holds.past
  past_of_Finish (raised e, s, w) (inl h) = h.holds.past
  past_of_Finish (raised e, s, w) (inr h) = h.holds.past

  shown :
      (x : Result (Unit {0}) × AtomicWriter × World)
      → Finish x
      → EndsWith
          (λ u s. Shows target (intended old plan))
          (λ e s w. Shows target old w ⊎ Shows target (intended old plan) w)
          x
  shown (ok u, s, w) (inl h) = rw h.0 (h.1.1.settled.seen, h.1.1.settled.late)
  shown (ok u, s, w) (inr h) = (h.holds.settled.seen, h.holds.settled.late)
  shown (raised e, s, w) (inl h) = inl (h.holds.settled.seen, h.holds.settled.late)
  shown (raised e, s, w) (inr h) = inr (h.holds.settled.seen, h.holds.settled.late)

module _ {target : FilePath} (o : IsOrdinary target) (old : Option Bytes) (host : Host)
    (chunk_size : ℕ) (options : Options) (actions : List Action) (w : World)
    (r : Ready target old w) where
  finished :
      Finish o old host chunk_size options
        (committed_text [] actions)
        (with_writer host chunk_size target options actions new_writer w)
  finished =
      (with_writer-Done o old host chunk_size options (committed_text [] actions) actions refl).at
        new_writer w (refl, Before-of_Ready r)

  -- Let the target be an ordinary file name and at rest (`Ready`) with the text `old`. Whatever
  -- writes, syncs, commits, aborts and raises a `with AtomicWriter` block consists of, for all
  -- options and every list of faults, every file system that a call leaves shows `old` or all that
  -- the block wrote up to its first `commit` (its end, where it has none): to a reader, and to a
  -- reader after a crash with or without the entry on the disk. If the block comes to an `abort` or
  -- a raise of its own first, every one shows `old`.
  pub with_writer_atomic :
      All
        (Good target old (intended old (committed_text [] actions)))
        (with_writer host chunk_size target options actions new_writer w).2.trace
  with_writer_atomic =
      past_of_Finish o old host chunk_size options (committed_text [] actions) _ finished

  -- Let the target be an ordinary file name and at rest (`Ready`) with the text `old`. If a `with
  -- AtomicWriter` block returns, a reader sees in the end, also after a crash that follows the entry
  -- to the disk, all that the block wrote up to its first `commit`, or `old` if it came to an
  -- `abort` first; if it raises, he sees `old` or that text.
  pub with_writer-Shows :
      EndsWith
        (λ u s. Shows target (intended old (committed_text [] actions)))
        (λ e s w'. Shows target old w' ⊎ Shows target (intended old (committed_text [] actions)) w')
        (with_writer host chunk_size target options actions new_writer w)
  with_writer-Shows = shown o old host chunk_size options (committed_text [] actions) _ finished
