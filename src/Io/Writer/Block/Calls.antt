-- ===== src/Io/Writer/Block/Calls.antt =====
-- The calls of a `with` block while the file is open.
use safeatomic.Prelude.{
  ℕ, ◌≡◌, ◌≢◌, refl, ◌⊎◌, inl, inr, true, false, Option, some, List, [], ◌∷◌, ◌++◌, Bytes,
}
use safeatomic.Sys.Fs.{FilePath}
use safeatomic.Sys.World.{Handle, World}
use safeatomic.Sys.Method.Sat.{Sat, Sat-bind, Sat-throw, Sat-return, Sat-weaken}
use safeatomic.Sys.Method.Shape.{At}
use safeatomic.Sys.Files.{Unheld}
use safeatomic.Host.{Host}
use safeatomic.Ordinary.{IsOrdinary}
use safeatomic.Io.Write.{Options}
use safeatomic.Io.Staged.{Before}
use safeatomic.Io.Writer.{
  AtomicWriter, Action, write_action, flush_action, commit_action, abort_action, raise_action,
  commit, abort, perform, perform_all,
}
use safeatomic.Io.Writer.Phases.{opened, empty, Placed, Unplaced-of_At}
use safeatomic.Io.Writer.Abort.{Ended, abort-Before}
use safeatomic.Io.Writer.Commit.{Live, write-Live, flush-Live, commit-Live}
use safeatomic.Io.Staged.Fill.{Open}
use safeatomic.Io.Writer.Enter.{committed_text, intended, goal, Over, Done}
use safeatomic.Io.Writer.Block.Spent.{perform-Dropped, perform-Placed, perform_all-Keeps}

module _ {target : FilePath} (o : IsOrdinary target) (old : Option Bytes) (host : Host)
    (chunk_size : ℕ) (options : Options) (plan : Option Bytes) where
  abbrev pub LiveHere : FilePath → ℕ → ℕ → List (ℕ × Handle) → Bytes → AtomicWriter → World → Type 0
  LiveHere tmp fd i rest text =
      At (opened tmp fd)
        (Open target tmp old (goal o old host chunk_size options plan) i fd rest text)

  -- The block ended with the file open, or by `commit` or `abort`.
  pub record Running (tmp : FilePath) (fd i : ℕ) (rest : List (ℕ × Handle)) (s : AtomicWriter)
      (w : World) : Type 0 where
    pub text : Bytes
    pub planned : plan ≡ some text
    pub live : LiveHere tmp fd i rest text s w

  module _ (tmp : FilePath) (fd i : ℕ) (rest : List (ℕ × Handle)) (ne : tmp ≢ target)
      (unheld : Unheld i rest) where
    abbrev pub Finished : AtomicWriter → World → Type 0
    Finished s w = Running tmp fd i rest s w ⊎ Done o old host chunk_size options plan s w

    pub commit-Goal :
        (p : Option Bytes) (text : Bytes)
        → p ≡ some text
        → Sat
            (Live target tmp old (intended old p) i fd rest ne text)
            (commit host chunk_size target options)
            (λ u. Placed target old (intended old p))
            (λ e. Ended o old (intended old p) host chunk_size options)
    commit-Goal p text e = rw e (commit-Live o old i fd rest ne unheld text host chunk_size options)

    unplaced :
        (text : Bytes) (s : AtomicWriter) (w : World)
        → LiveHere tmp fd i rest text s w
        → Over o old host chunk_size options plan s w
    unplaced text s w h = inl (
        Unplaced-of_At target old (goal o old host chunk_size options plan) (opened tmp fd) ne refl
          s w (h.0, h.1.holds))

    abort-Live :
        (text : Bytes)
        → Sat
            (LiveHere tmp fd i rest text)
            (abort host chunk_size target options)
            (λ u.
              At (empty false true) (Before target old (goal o old host chunk_size options plan)))
            (λ e. Over o old host chunk_size options plan)
    abort-Live text = record {
      at = λ s w h.
          (Sat-weaken _
              (abort-Before o old (goal o old host chunk_size options plan) host chunk_size options
                tmp fd ne)
              (λ u s w h. h) (λ e s w. inl)).at
            s w (h.0, h.1.holds);
    }

    -- The whole block, if what it has written and what it does from here on make up the plan.
    pub perform_all-Live :
        (sofar : Bytes) (actions : List Action)
        → plan ≡ committed_text sofar actions
        → Sat
            (LiveHere tmp fd i rest sofar)
            (perform_all host chunk_size target options actions)
            (λ u. Finished)
            (λ e. Over o old host chunk_size options plan)
    unfolding perform_all perform
    perform_all-Live sofar [] e =
        Sat-return tt (λ s w h. inl (record { text = sofar; planned = e; live = h }))
    perform_all-Live sofar (write_action text ∷ actions) e =
        Sat-bind _ _
          (Sat-bind _ _
            (Sat-weaken _
              (write-Live target tmp old (goal o old host chunk_size options plan) i fd rest ne
                sofar text)
              (λ n s w h. h) (λ e s w. inl))
            (λ n. Sat-return tt (λ s w h. h)))
          (λ u. perform_all-Live (sofar ++ text) actions e)
    perform_all-Live sofar (flush_action ∷ actions) e =
        Sat-bind _ _
          (Sat-weaken _
            (flush-Live target tmp old (goal o old host chunk_size options plan) i fd rest ne sofar)
            (λ n s w h. h) (λ e s w. inl))
          (λ u. perform_all-Live sofar actions e)
    perform_all-Live sofar (commit_action ∷ actions) e =
        Sat-bind _ _ (commit-Goal plan sofar e) (λ u.
          Sat-weaken _
            ((perform_all-Keeps o old host chunk_size options plan)
              (Placed target old (goal o old host chunk_size options plan))
              (perform-Placed o old host chunk_size options plan) actions)
            (λ u s w h. inr (inr h)) (λ e s w h. h))
    perform_all-Live sofar (abort_action ∷ actions) e = Sat-bind _ _ (abort-Live sofar) (λ u.
        Sat-weaken _
          ((perform_all-Keeps o old host chunk_size options plan)
            (At (empty false true) (Before target old (goal o old host chunk_size options plan)))
            (perform-Dropped o old host chunk_size options plan) actions)
          (λ u s w h. inr (inl (e, h))) (λ e s w h. h))
    perform_all-Live sofar (raise_action x ∷ actions) e =
        Sat-bind {Q = λ u s w. ⊥} _ _ (Sat-throw x (unplaced sofar))
          (λ u. record { at = λ s w h. absurd h })
