-- ===== src/Io/Writer/Pieces.antt =====
-- A block of writes and syncs returns, and the target shows the pieces joined.
use safeatomic.Prelude.{ℕ, ◌≡◌, ◌⊎◌, ◌++◌, ◌∙◌, ap, refl, Option, some, List, [], ◌∷◌, Bytes}
use mathlib.Core.List.{append-nil, append_assoc}
use safeatomic.Prelude.Eq.{nat_eq, list_eq}
use safeatomic.Sys.Fs.{FilePath}
use safeatomic.Sys.World.{World}
use safeatomic.Sys.Exec.{Result, ok, raised}
use safeatomic.Sys.Method.Sat.{EndsWith}
use safeatomic.Host.{Host}
use safeatomic.Paths.{tmp_name}
use safeatomic.Ordinary.{IsOrdinary}
use safeatomic.Io.Write.{Options}
use safeatomic.Io.Promises.{Ready, Shows}
use safeatomic.Io.Returns.Plain.{Plain}
use safeatomic.Io.Writer.{
  AtomicWriter, Action, write_action, flush_action, commit_action, abort_action, raise_action,
  new_writer, with_writer,
}
use safeatomic.Io.Writer.Enter.{committed_text}
use safeatomic.Io.Writer.Streams.{with_writer-Shows}
use safeatomic.Io.Writer.Returns.{IsStream, with_writer-Answers}

both-EndsWith :
    (target : FilePath) (old new : Option Bytes) (x : Result (Unit {0}) × AtomicWriter × World)
    → EndsWith (λ u s w'. Unit) (λ e s w'. ⊥) x
    → EndsWith (λ u s. Shows target new) (λ e s w'. Shows target old w' ⊎ Shows target new w') x
    → EndsWith (λ u s. Shows target new) (λ e s w'. ⊥) x
both-EndsWith target old new (ok u, s, w) h k = k
both-EndsWith target old new (raised e, s, w) h k = h

-- What a stream has written.
unfoldable pub streamed : List Action → Bytes
streamed [] = []
streamed (write_action text ∷ actions) = text ++ streamed actions
streamed (_ ∷ actions) = streamed actions

committed-IsStream :
    (sofar : Bytes) (actions : List Action)
    → IsStream actions
    → committed_text sofar actions ≡ some (sofar ++ streamed actions)
unfolding streamed
committed-IsStream sofar [] h = rw (append-nil sofar) refl
committed-IsStream sofar (write_action text ∷ actions) h =
    committed-IsStream (sofar ++ text) actions h
    ∙ ap some (append_assoc sofar text (streamed actions))
committed-IsStream sofar (flush_action ∷ actions) h = committed-IsStream sofar actions h
committed-IsStream sofar (commit_action ∷ actions) h = absurd h
committed-IsStream sofar (abort_action ∷ actions) h = absurd h
committed-IsStream sofar (raise_action e ∷ actions) h = absurd h

-- Let the target be an ordinary file name and at rest (`Ready`), its directory be there, the next
-- temporary name be free, no call fail, and the writer be without a lock, a safety gate and a
-- sidecar. Then a `with AtomicWriter` block of writes and syncs returns, and a reader sees the
-- pieces joined in their order, also after a crash if the entry has reached the disk.
pub with_writer_returns :
    {target : FilePath} (o : IsOrdinary target) (old : Option Bytes) (host : Host) (chunk_size : ℕ)
    (options : Options) (actions : List Action) (w : World)
    → IsStream actions
    → Ready target old w
    → Plain host target options w
    → EndsWith
        (λ u s. Shows target (some (streamed actions)))
        (λ e s w'. ⊥)
        (with_writer host chunk_size target options actions new_writer w)
with_writer_returns {target} o old host chunk_size options actions w h r p =
    both-EndsWith target old (some (streamed actions)) _
      ((with_writer-Answers target (tmp_name host w.drawn) host chunk_size options p.no_lock
          p.no_gate p.no_sidecar actions h).at
        new_writer w
        (refl, ((record { quiet = p.quiet; present_dir = p.present_dir }, p.free), refl)))
      (rw (committed-IsStream [] actions h) at
        (with_writer-Shows o old host chunk_size options actions w r))
