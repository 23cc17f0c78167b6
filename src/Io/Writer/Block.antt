-- ===== src/Io/Writer/Block.antt =====
-- A whole `with` block and its `__exit__`.
mod Spent
mod Calls
use safeatomic.Prelude.{
  ℕ, ◌≡◌, ◌≢◌, refl, ◌⊎◌, inl, inr, Bool, true, false, ◌||◌, Option, none, some, List, [], ◌∷◌,
  ◌++◌, Bytes, if◌then◌else◌,
}
use safeatomic.Sys.Errors.{Exception, runtime_error}
use safeatomic.Sys.Fs.{FilePath}
use safeatomic.Sys.World.{Handle, World}
use safeatomic.Sys.Method.{Method, catch, ◌>>=◌, ◌>>◌, throw, return}
use safeatomic.Sys.Method.Sat.{
  Sat, Sat-with_self, Sat-bind, Sat-catch, Sat-throw, Sat-return, Sat-weaken,
}
use safeatomic.Sys.Method.Shape.{At, At-with_self}
use safeatomic.Sys.Files.{Unheld}
use safeatomic.Host.{Host}
use safeatomic.Ordinary.{IsOrdinary}
use safeatomic.Io.Write.{Options}
use safeatomic.Io.Staged.{Before}
use safeatomic.Io.Writer.{
  AtomicWriter, Action, write_action, flush_action, commit_action, abort_action, raise_action,
  new_writer, write, flush, commit, abort, exit, perform, perform_all, leave, with_writer,
  fd_or_raise,
}
use safeatomic.Io.Writer.Phases.{opened, empty, Placed, Unplaced-of_At}
use safeatomic.Io.Writer.Abort.{Ended, abort-Before, abort-Unplaced, abort-Placed, abort-Aborted}
use safeatomic.Io.Writer.Commit.{Live, write-Live, flush-Live, commit-Live}
use safeatomic.Io.Staged.Fill.{Open}
use safeatomic.Io.Writer.Enter.{committed_text, intended, goal, Over, Done, dropped, enter-Started}
use safeatomic.Io.Writer.Block.Calls.{LiveHere, Running, Finished, commit-Goal, perform_all-Live}

committed-or : {a : Bool} (b : Bool) → a ≡ true → (a || b) ≡ true
committed-or b e = rw e

module _ {target : FilePath} (o : IsOrdinary target) (old : Option Bytes) (host : Host)
    (chunk_size : ℕ) (options : Options) (plan : Option Bytes) where
  module _ (tmp : FilePath) (fd i : ℕ) (rest : List (ℕ × Handle)) (ne : tmp ≢ target)
      (unheld : Unheld i rest) where
    exit_again :
        (b : Bool) (m : Method AtomicWriter (Unit {0}))
        → b ≡ true
        → Sat
            (Placed target old (goal o old host chunk_size options plan))
            (if b then return tt else m)
            (λ u. Done o old host chunk_size options plan)
            (λ e. Over o old host chunk_size options plan)
    exit_again b m e = rw e (Sat-return tt (λ s w. inr))

    -- `__exit__` after a block that did not raise.
    exit-Finished :
        Sat
          (Finished o old host chunk_size options plan tmp fd i rest ne unheld)
          (exit host chunk_size target options false)
          (λ u. Done o old host chunk_size options plan)
          (λ e. Over o old host chunk_size options plan)
    unfolding exit
    exit-Finished = record {
      at = λ s w h. elim h [
        | inl r ↦
            (At-with_self (opened tmp fd) _ (
                Sat-weaken _
                  (commit-Goal o old host chunk_size options plan tmp fd i rest ne unheld plan
                    r.text r.planned)
                  (λ u s w. inr) (λ e s w h. h))).at
              s w r.live
        | inr (inl d) ↦
            (At-with_self (empty false true) _ (Sat-return tt (λ s w k. inl (d.0, k)))).at s w d.1
        | inr (inr q) ↦
            (Sat-with_self _ (λ s w h.
                (exit_again (s.committed || s.aborted) _ (committed-or s.aborted h.committed)).at s
                  w h)).at
              s w q
      ];
    }

  -- `__exit__` after a raise.
  exit-Over :
      Sat
        (Over o old host chunk_size options plan)
        (exit host chunk_size target options true)
        (λ u. Over o old host chunk_size options plan)
        (λ e. Over o old host chunk_size options plan)
  unfolding exit
  exit-Over = record {
    at = λ s w h. elim h [
      | inl u ↦
          (Sat-weaken _
              (abort-Unplaced o old (goal o old host chunk_size options plan) host chunk_size
                options)
              (λ u s w. inl) (λ e s w. inl)).at
            s w u
      | inr q ↦
          (Sat-weaken _
              (abort-Placed o old (goal o old host chunk_size options plan) host chunk_size options)
              (λ u s w. inr) (λ e s w. inr)).at
            s w q
    ];
  }

  module _ (tmp : FilePath) (fd i : ℕ) (rest : List (ℕ × Handle)) (ne : tmp ≢ target)
      (unheld : Unheld i rest) where
    abbrev Left : Option Exception → AtomicWriter → World → Type 0
    Left none = Finished o old host chunk_size options plan tmp fd i rest ne unheld
    Left (some e) = Over o old host chunk_size options plan

    leave-Done :
        (outcome : Option Exception)
        → Sat
            (Left outcome)
            (leave host chunk_size target options outcome)
            (λ u. Done o old host chunk_size options plan)
            (λ e. Over o old host chunk_size options plan)
    leave-Done none = exit-Finished tmp fd i rest ne unheld
    leave-Done (some e) = Sat-bind _ _ exit-Over (λ u. Sat-throw e (λ s w h. h))

    block-Done :
        (actions : List Action)
        → plan ≡ committed_text [] actions
        → Sat
            (LiveHere o old host chunk_size options plan tmp fd i rest [])
            (catch
                (perform_all host chunk_size target options actions >> return none)
                (λ e. return (some e))
              >>= leave host chunk_size target options)
            (λ u. Done o old host chunk_size options plan)
            (λ e. Over o old host chunk_size options plan)
    block-Done actions e =
        Sat-bind _ _
          (Sat-catch {Q = Left} _ _
            (Sat-bind _ _
              (perform_all-Live o old host chunk_size options plan tmp fd i rest ne unheld []
                actions e)
              (λ u. Sat-return none (λ s w h. h)))
            (λ x. Sat-return (some x) (λ s w h. h)))
          leave-Done

  -- The whole `with` block.
  pub with_writer-Done :
      (actions : List Action)
      → plan ≡ committed_text [] actions
      → Sat
          (At new_writer (Before target old (goal o old host chunk_size options plan)))
          (with_writer host chunk_size target options actions)
          (λ u. Done o old host chunk_size options plan)
          (λ e. Over o old host chunk_size options plan)
  unfolding with_writer
  with_writer-Done actions e =
      Sat-bind _ _
        (Sat-weaken _ (enter-Started o old host chunk_size options plan) (λ u s w h. h)
          (λ e s w. inl))
        (λ u. record {
          at = λ s w h.
              let f = h.fresh.1 in
              (block-Done h.tmp h.fd f.inode f.rest h.apart f.unheld actions e).at s w
                (h.fresh.0, f.staged);
        })
