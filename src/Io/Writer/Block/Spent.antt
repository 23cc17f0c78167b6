-- ===== src/Io/Writer/Block/Spent.antt =====
-- The calls of a `with` block after an `abort` or after the replacement.
use safeatomic.Prelude.{
  ℕ, ◌≡◌, inl, inr, Bool, true, false, Option, none, List, [], ◌∷◌, Bytes, if◌then◌else◌,
}
use safeatomic.Sys.Errors.{runtime_error}
use safeatomic.Sys.Fs.{FilePath}
use safeatomic.Sys.World.{World}
use safeatomic.Sys.Method.{Method, throw}
use safeatomic.Sys.Method.Sat.{Sat, Sat-with_self, Sat-bind, Sat-throw, Sat-return, Sat-weaken}
use safeatomic.Sys.Method.Shape.{At, At-with_self}
use safeatomic.Host.{Host}
use safeatomic.Ordinary.{IsOrdinary}
use safeatomic.Io.Write.{Options}
use safeatomic.Io.Staged.{Before}
use safeatomic.Io.Writer.{
  AtomicWriter, Action, write_action, flush_action, commit_action, abort_action, raise_action,
  write, flush, commit, perform, perform_all, fd_or_raise,
}
use safeatomic.Io.Writer.Phases.{empty, Placed}
use safeatomic.Io.Writer.Abort.{abort-Placed, abort-Aborted}
use safeatomic.Io.Writer.Enter.{goal, Over, dropped}

module _ {target : FilePath} (o : IsOrdinary target) (old : Option Bytes) (host : Host)
    (chunk_size : ℕ) (options : Options) (plan : Option Bytes) where
  -- After an `abort` a call raises or does nothing.
  pub perform-Dropped :
      (a : Action)
      → Sat
          (At (empty false true) (Before target old (goal o old host chunk_size options plan)))
          (perform host chunk_size target options a)
          (λ u. At (empty false true) (Before target old (goal o old host chunk_size options plan)))
          (λ e. Over o old host chunk_size options plan)
  unfolding perform write flush commit
  perform-Dropped (write_action text) =
      Sat-bind
        {Q = λ n.
          At (empty false true) (Before target old (goal o old host chunk_size options plan))}
        _ _
        (At-with_self (empty false true) _
          (Sat-throw runtime_error (dropped o old host chunk_size options plan)))
        (λ n. Sat-return tt (λ s w h. h))
  perform-Dropped flush_action =
      At-with_self (empty false true) _
        (Sat-throw runtime_error (dropped o old host chunk_size options plan))
  perform-Dropped commit_action =
      At-with_self (empty false true) _
        (Sat-throw runtime_error (dropped o old host chunk_size options plan))
  perform-Dropped abort_action =
      Sat-weaken _
        (abort-Aborted o old (goal o old host chunk_size options plan) host chunk_size options)
        (λ u s w h. h) (λ e s w. inl)
  perform-Dropped (raise_action e) = Sat-throw e (dropped o old host chunk_size options plan)

  fd_or_raise-Placed :
      {A : Type 0} {Q : A → AtomicWriter → World → Type 0} (fd : Option ℕ)
      (f : ℕ → Method AtomicWriter A)
      → fd ≡ none
      → Sat
          (Placed target old (goal o old host chunk_size options plan))
          (fd_or_raise fd f)
          Q
          (λ e. Over o old host chunk_size options plan)
  fd_or_raise-Placed fd f e = rw e (Sat-throw runtime_error (λ s w. inr))

  commit_again :
      (b : Bool) (m : Method AtomicWriter (Unit {0}))
      → b ≡ true
      → Sat
          (Placed target old (goal o old host chunk_size options plan))
          (if b then throw runtime_error else m)
          (λ u. Placed target old (goal o old host chunk_size options plan))
          (λ e. Over o old host chunk_size options plan)
  commit_again b m e = rw e (Sat-throw runtime_error (λ s w. inr))

  -- And so after the replacement.
  pub perform-Placed :
      (a : Action)
      → Sat
          (Placed target old (goal o old host chunk_size options plan))
          (perform host chunk_size target options a)
          (λ u. Placed target old (goal o old host chunk_size options plan))
          (λ e. Over o old host chunk_size options plan)
  unfolding perform write flush commit
  perform-Placed (write_action text) =
      Sat-bind {Q = λ n. Placed target old (goal o old host chunk_size options plan)} _ _
        (Sat-with_self _ (λ s w h. (fd_or_raise-Placed s.fd _ h.no_fd).at s w h))
        (λ n. Sat-return tt (λ s w h. h))
  perform-Placed flush_action =
      Sat-with_self _ (λ s w h. (fd_or_raise-Placed s.fd _ h.no_fd).at s w h)
  perform-Placed commit_action =
      Sat-with_self _ (λ s w h. (commit_again s.committed _ h.committed).at s w h)
  perform-Placed abort_action =
      Sat-weaken _
        (abort-Placed o old (goal o old host chunk_size options plan) host chunk_size options)
        (λ u s w h. h) (λ e s w. inr)
  perform-Placed (raise_action e) = Sat-throw e (λ s w. inr)

  pub perform_all-Keeps :
      (P : AtomicWriter → World → Type 0)
      → ((a : Action)
          → Sat P
              (perform host chunk_size target options a)
              (λ u. P)
              (λ e. Over o old host chunk_size options plan))
      → (actions : List Action)
      → Sat P
          (perform_all host chunk_size target options actions)
          (λ u. P)
          (λ e. Over o old host chunk_size options plan)
  unfolding perform_all
  perform_all-Keeps P k [] = Sat-return tt (λ s w h. h)
  perform_all-Keeps P k (a ∷ actions) = Sat-bind _ _ (k a) (λ u. perform_all-Keeps P k actions)
