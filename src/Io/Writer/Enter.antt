-- ===== src/Io/Writer/Enter.antt =====
-- What a `with` block is to commit, and `__enter__`.
use safeatomic.Prelude.{
  ℕ, ◌≡◌, ◌≢◌, refl, ◌⊎◌, inl, true, false, Option, none, some, List, [], ◌∷◌, ◌++◌, Bytes,
}
use safeatomic.Sys.Fs.{FilePath}
use safeatomic.Sys.World.{World}
use safeatomic.Sys.Exec.{when, on_error}
use safeatomic.Sys.Calls.{open_excl}
use safeatomic.Sys.Logic.Ends.{Triple, Triple-of_Keeps, Triple-on_error, Ends-weaken}
use safeatomic.Sys.Method.{◌>>=◌, ◌>>◌, lift}
use safeatomic.Sys.Method.Sat.{Sat, Sat-bind, Sat-weaken}
use safeatomic.Sys.Method.Shape.{At, At-lift, At-assign}
use safeatomic.Host.{Host}
use safeatomic.Ordinary.{IsOrdinary}
use safeatomic.Io.Safety.{is_lock}
use safeatomic.Io.Write.{Options, release_lock_suppress}
use safeatomic.Io.Frame.{Keeps-check_safety}
use safeatomic.Io.Visibility.{acquire-Keeps, tmp_path_for-Named}
use safeatomic.Io.Staged.{Before, before, Fresh, open_excl-Fresh}
use safeatomic.Io.Writer.{
  AtomicWriter, Action, write_action, flush_action, commit_action, abort_action, raise_action,
  new_writer, set_fd, set_tmp, enter,
}
use safeatomic.Io.Writer.Phases.{opened, empty, Unplaced, Placed, lift-Before, Unplaced-of_At}
use safeatomic.Io.Writer.Abort.{Ended, unlock-Keeps}

-- What the block commits if no call raises, given what it has written so far.
abbrev pub committed_text : Bytes → List Action → Option Bytes
committed_text sofar [] = some sofar
committed_text sofar (write_action text ∷ actions) = committed_text (sofar ++ text) actions
committed_text sofar (flush_action ∷ actions) = committed_text sofar actions
committed_text sofar (commit_action ∷ actions) = some sofar
committed_text sofar (abort_action ∷ actions) = none
committed_text sofar (raise_action e ∷ actions) = none

-- What the target is to show in the end.
abbrev pub intended : Option Bytes → Option Bytes → Option Bytes
intended old none = old
intended old (some text) = some text

module _ {target : FilePath} (o : IsOrdinary target) (old : Option Bytes) (host : Host)
    (chunk_size : ℕ) (options : Options) (plan : Option Bytes) where
  abbrev pub goal : Option Bytes
  goal = intended old plan

  abbrev pub Over : AtomicWriter → World → Type 0
  Over = Ended o old goal host chunk_size options

  -- The block was left by `abort`.
  abbrev Dropped : AtomicWriter → World → Type 0
  Dropped s w = (plan ≡ none) × At (empty false true) (Before target old goal) s w

  abbrev pub Done : AtomicWriter → World → Type 0
  Done s w = Dropped s w ⊎ Placed target old goal s w

  pub dropped :
      (s : AtomicWriter) (w : World) → At (empty false true) (Before target old goal) s w → Over s w
  dropped s w h = inl (Unplaced-of_At target old goal (empty false true) tt refl s w h)

  -- After `__enter__`.
  pub record Started (s : AtomicWriter) (w : World) : Type 0 where
    pub tmp : FilePath
    pub fd : ℕ
    pub apart : tmp ≢ target
    pub fresh : At (opened tmp fd) (Fresh target tmp old goal fd) s w

  pub enter-Started :
      Sat
        (At new_writer (Before target old goal))
        (enter host chunk_size target options)
        (λ u. Started)
        (λ e. Unplaced target old goal)
  unfolding enter set_tmp set_fd
  enter-Started =
      Sat-bind _ _
        (lift-Before target old goal new_writer _ tt refl
          (Keeps-check_safety o (before old goal) host target.dir _ options.safety))
        (λ u.
          Sat-bind _ _
            (lift-Before target old goal new_writer _ tt refl
              (acquire-Keeps o old host chunk_size [] (before old goal) options))
            (λ u.
              Sat-bind _ _
                (Sat-weaken _ (At-lift new_writer _ (tmp_path_for-Named o old goal host))
                  (λ tmp s w h. h) (λ e. blank))
                open_tmp))
    where
      blank :
          (s : AtomicWriter) (w : World)
          → At new_writer (Before target old goal) s w
          → Unplaced target old goal s w
      blank s w h = Unplaced-of_At target old goal new_writer tt refl s w h

      opened_file :
          (tmp : FilePath)
          → Triple
              (λ w. Before target old goal w × (tmp ≢ target))
              (on_error
                (open_excl tmp)
                (when (is_lock options.concurrency) (release_lock_suppress host chunk_size target)))
              (λ fd w. Fresh target tmp old goal fd w × (tmp ≢ target))
              (λ e. Before target old goal)
      opened_file tmp = record {
        at = λ w h.
            Ends-weaken (Fresh target tmp old goal)
              (λ fd w. Fresh target tmp old goal fd w × (tmp ≢ target))
              (λ e. Before target old goal) (λ e. Before target old goal) _
              ((Triple-on_error _ _ (open_excl-Fresh h.1 old goal) (λ e.
                  Triple-of_Keeps _
                    (unlock-Keeps o old goal host chunk_size options (before old goal)))).at
                w h.0)
              (λ fd w f. (f, h.1)) (λ e w b. b);
      }

      open_tmp :
          (tmp : FilePath)
          → Sat
              (At new_writer (λ w. Before target old goal w × (tmp ≢ target)))
              (lift (
                  on_error (open_excl tmp) (
                    when
                      (is_lock options.concurrency)
                      (release_lock_suppress host chunk_size target)))
                >>= λ fd. set_tmp (some tmp) >> set_fd (some fd))
              (λ u. Started)
              (λ e. Unplaced target old goal)
      open_tmp tmp =
          Sat-bind _ _
            (Sat-weaken _ (At-lift new_writer _ (opened_file tmp)) (λ fd s w h. h) (λ e. blank))
            (λ fd.
              Sat-weaken _
                (Sat-bind _ _ (At-assign new_writer _)
                  (λ u. At-assign (record new_writer { tmp = some tmp }) _))
                (λ u s w h. record { tmp = tmp; fd = fd; apart = h.1.1; fresh = (h.0, h.1.0) })
                (λ e s w h. h))
