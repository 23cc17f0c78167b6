-- ===== src/Tests/Streams.antt =====
-- `AtomicWriter` on the small disk.
use safeatomic.Prelude.{◌⊎◌, refl, inr, true, false, none, some, List, [], ◌∷◌, Bytes, codes, All}
use safeatomic.Sys.Method.{return, assign, with_self, lift, catch, ◌>>=◌}
use safeatomic.Sys.Exec.{pure}
use safeatomic.Sys.Method.Sat.{EndsWith}
use safeatomic.Sys.Files.Holds.{Good}
use safeatomic.Io.Promises.{Shows}
use safeatomic.Io.Writer.{
  AtomicWriter, Action, write_action, flush_action, commit_action, abort_action, new_writer,
  with_writer, write, flush, fileno, commit, perform, abort, discard, release,
}
use safeatomic.Io.Writer.Streams.{with_writer_atomic, with_writer-Shows}
use safeatomic.Io.Writer.Pieces.{streamed, with_writer_returns}
use safeatomic.Io.Writer.Lifecycle.{IsConsistent}
use safeatomic.Io.Writer.Misuse.{IsRefused, call_each, call_each-IsConsistent, call_each-IsRefused}
use safeatomic.Tests.Machine.{machine}
use safeatomic.Tests.Disk.{first-Ready}
use safeatomic.Tests.Writes.{
  file_a, file_b, old, new, a-ne-b, a-IsOrdinary, options, start, a-Ready, plain, calm, calm-Plain,
}

-- Two pieces, a sync between them, and a write after the commit.
abbrev pieces : List Action
pieces =
    write_action (codes "new")
    ∷ flush_action
    ∷ write_action (codes " text")
    ∷ commit_action
    ∷ write_action (codes "!")
    ∷ []

with_writer_atomic_example :
    All
      (Good file_a (some old) (some new))
      (with_writer machine 4 file_a options pieces new_writer start).2.trace
with_writer_atomic_example =
    with_writer_atomic a-IsOrdinary (some old) machine 4 options pieces start a-Ready

with_writer-Shows_example :
    EndsWith
      (λ u s. Shows file_a (some new))
      (λ e s w'. Shows file_a (some old) w' ⊎ Shows file_a (some new) w')
      (with_writer machine 4 file_a options pieces new_writer start)
with_writer-Shows_example =
    with_writer-Shows a-IsOrdinary (some old) machine 4 options pieces start a-Ready

abbrev stream : List Action
stream = write_action (codes "new") ∷ flush_action ∷ write_action (codes " text") ∷ []

with_writer_returns_example :
    EndsWith
      (λ u s. Shows file_a (some new))
      (λ e s w'. ⊥)
      (with_writer machine 4 file_a plain stream new_writer calm)
unfolding streamed
with_writer_returns_example =
    with_writer_returns a-IsOrdinary (some old) machine 4 plain stream calm tt
      (first-Ready file_a file_b old old [] a-ne-b) calm-Plain

new_writer-IsConsistent : IsConsistent new_writer
new_writer-IsConsistent = record {
  named = λ e. refl;
  after_commit = λ e. refl;
  after_abort = λ e. refl;
}

call_each-IsConsistent_example :
    IsConsistent (call_each machine 4 file_a options pieces new_writer start).1
call_each-IsConsistent_example =
    call_each-IsConsistent machine 4 file_a options pieces new_writer start new_writer-IsConsistent

abbrev aborted_writer : AtomicWriter
aborted_writer = record { tmp = none; fd = none; committed = false; aborted = true }

call_each-IsRefused_example :
    ((text : Bytes) → IsRefused (write text) aborted_writer start)
    × IsRefused flush aborted_writer start
    × IsRefused fileno aborted_writer start
    × IsRefused (commit machine 4 file_a plain) aborted_writer start
unfolding call_each perform abort discard release return assign with_self lift catch ◌>>=◌ pure
call_each-IsRefused_example =
    call_each-IsRefused machine 4 file_a plain (abort_action ∷ []) new_writer aborted_writer calm
      start new_writer-IsConsistent refl (inr refl)
