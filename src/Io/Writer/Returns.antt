-- ===== src/Io/Writer/Returns.antt =====
-- A block of writes and syncs without a lock, a gate and a sidecar, where no call fails.
use safeatomic.Prelude.{ℕ, ◌≡◌, refl, true, false, none, some, List, [], ◌∷◌, Str}
use safeatomic.Prelude.Eq.{nat_eq, list_eq}
use safeatomic.Constants.{best_effort, unlocked}
use safeatomic.Sys.Fs.{FilePath}
use safeatomic.Sys.World.{World}
use safeatomic.Sys.Exec.{Exec, on_error, pure}
use safeatomic.Sys.Calls.{open_excl}
use safeatomic.Sys.Logic.Ends.{Triple-pure, Triple-on_error}
use safeatomic.Sys.Logic.Returns.{Returns}
use safeatomic.Sys.Method.{Method, ◌>>=◌, ◌>>◌, lift}
use safeatomic.Sys.Method.Sat.{Sat, Sat-bind, Sat-catch, Sat-return, Sat-lift, Sat-weaken}
use safeatomic.Sys.Method.Shape.{At, At-lift, At-assign, At-with_self}
use safeatomic.Host.{Host}
use safeatomic.Paths.{tmp_path_for, tmp_name}
use safeatomic.Io.Safety.{check_safety}
use safeatomic.Io.Write.{Options}
use safeatomic.Io.Returns.{
  tmp, Calmly, Absent, Holding, open_excl-Holding, write_bytes-Holding, fsync-Holding, close-Going,
}
use safeatomic.Io.Returns.Place.{replace-Calmly}
use safeatomic.Io.Returns.Metadata.{write_copystat-Going}
use safeatomic.Io.Returns.Sync.{fsync_dir-Calmly}
use safeatomic.Io.Writer.{
  AtomicWriter, Action, write_action, flush_action, commit_action, abort_action, raise_action,
  new_writer, write, flush, set_fd, set_tmp, enter, place, finish, release, commit, exit, perform,
  perform_all, leave, with_writer,
}
use safeatomic.Io.Writer.Phases.{opened, shut, empty}

-- Writes and syncs alone.
abbrev pub IsStream : List Action → Type 0
IsStream [] = Unit
IsStream (write_action text ∷ actions) = IsStream actions
IsStream (flush_action ∷ actions) = IsStream actions
IsStream (_ ∷ actions) = ⊥

-- It does not raise.
abbrev Answers :
    {A : Type 0}
    → (AtomicWriter → World → Type 0)
    → Method AtomicWriter A
    → (A → AtomicWriter → World → Type 0)
    → Type 0
Answers P m Q = Sat P m Q (λ e s w. ⊥)

lift_answer :
    {A : Type 0} {P : World → Type 0} {Q : A → World → Type 0} (c : AtomicWriter) (m : Exec A)
    → Returns P m Q
    → Answers (At c P) (lift m) (λ a. At c (Q a))
lift_answer c m t = Sat-weaken _ (At-lift c m t) (λ a s w h. h) (λ e s w h. absurd h.1)

module _ (target : FilePath) (name : Str) (host : Host) (chunk_size : ℕ) (options : Options)
    (c : options.concurrency ≡ unlocked) (f : options.safety ≡ best_effort)
    (k : options.write_checksum ≡ false) where
  abbrev Held : ℕ → AtomicWriter → World → Type 0
  Held fd = At (opened (tmp target name) fd) (Holding target name fd)

  perform_all-Held :
      (fd : ℕ) (actions : List Action)
      → IsStream actions
      → Answers (Held fd) (perform_all host chunk_size target options actions) (λ u. Held fd)
  unfolding perform_all perform write flush
  perform_all-Held fd [] h = Sat-return tt (λ s w h. h)
  perform_all-Held fd (write_action text ∷ actions) h =
      Sat-bind _ _
        (Sat-bind _ _
          (At-with_self (opened (tmp target name) fd) _ (
            Sat-bind _ _
              (lift_answer (opened (tmp target name) fd) _
                (write_bytes-Holding target name fd text))
              (λ u. Sat-return _ (λ s w h. h))))
          (λ n. Sat-return tt (λ s w h. h)))
        (λ u. perform_all-Held fd actions h)
  perform_all-Held fd (flush_action ∷ actions) h =
      Sat-bind _ _
        (At-with_self (opened (tmp target name) fd) _
          (lift_answer (opened (tmp target name) fd) _ (fsync-Holding target name fd)))
        (λ u. perform_all-Held fd actions h)
  perform_all-Held fd (commit_action ∷ actions) h = absurd h
  perform_all-Held fd (abort_action ∷ actions) h = absurd h
  perform_all-Held fd (raise_action e ∷ actions) h = absurd h

  place-Calmly :
      (fd : ℕ)
      → Answers
          (Held fd)
          (place host chunk_size target options (tmp target name) fd)
          (λ u. At (empty false false) (Calmly target name))
  unfolding place set_fd set_tmp
  place-Calmly fd =
      Sat-bind _ _ (lift_answer (opened (tmp target name) fd) _ (fsync-Holding target name fd))
        (λ u.
          Sat-bind _ _ (lift_answer (opened (tmp target name) fd) _ (close-Going target name fd))
            (λ u. Sat-bind _ _ (At-assign (opened (tmp target name) fd) _) (λ u.
              Sat-bind _ _
                (lift_answer (shut (tmp target name)) _
                  (write_copystat-Going target name options.preserve_metadata))
                (λ u.
                  Sat-bind _ _ (lift_answer (shut (tmp target name)) _ (replace-Calmly target name))
                    (λ u. At-assign (shut (tmp target name)) _)))))

  finish-Calmly :
      Answers
        (At (empty false false) (Calmly target name))
        (finish host chunk_size target options)
        (λ u s w. Unit)
  unfolding finish release
  finish-Calmly =
      rw (c, k)
        (Sat-bind _ _ (At-assign (empty false false) _) (λ u.
          Sat-bind _ _
            (lift_answer (empty true false) _ (fsync_dir-Calmly target name options.safety))
            (λ u.
              Sat-bind {Q = λ u. At (empty true false) (Calmly target name)} _ _
                (Sat-return tt (λ s w h. h)) (λ u. Sat-lift _ (λ s. Triple-pure tt (λ w h. tt))))))

  leave-Calmly :
      (fd : ℕ) → Answers (Held fd) (leave host chunk_size target options none) (λ u s w. Unit)
  unfolding exit commit
  leave-Calmly fd = At-with_self (opened (tmp target name) fd) _ (
      At-with_self (opened (tmp target name) fd) _ (
        Sat-bind _ _
          (Sat-catch {R = λ e s w. ⊥} _ _ (place-Calmly fd)
            (λ e. record { at = λ s w h. absurd h }))
          (λ u. finish-Calmly)))

  -- The gate, the lock and the name of the temporary file.
  enter-Held :
      Answers
        (At new_writer (λ w. Absent target name w × (name ≡ tmp_name host w.drawn)))
        (enter host chunk_size target options)
        (λ u s w. (fd : ℕ) × Held fd s w)
  unfolding enter set_tmp set_fd check_safety tmp_path_for
  enter-Held =
      rw (c, f)
        (Sat-bind {Q = λ u. At new_writer Prepared} _ _
          (lift_answer new_writer _ (Triple-pure _ (λ w h. h)))
          (λ u.
            Sat-bind {Q = λ u. At new_writer Prepared} _ _
              (lift_answer new_writer _ (Triple-pure tt (λ w h. h)))
              (λ u. Sat-bind _ _ (lift_answer new_writer _ named) open_tmp)))
    where
      Prepared : World → Type 0
      Prepared w = Absent target name w × (name ≡ tmp_name host w.drawn)

      Chosen : FilePath → World → Type 0
      Chosen p w = Absent target name w × (p ≡ tmp target name)

      named : Returns Prepared (tmp_path_for host target) Chosen
      named = record {
        at = λ w h.
            ((record { quiet = h.0.0.quiet; present_dir = h.0.0.present_dir }, h.0.1), rw h.1 refl);
      }

      new_tmp :
          Answers
            (At new_writer (Absent target name))
            (lift (on_error (open_excl (tmp target name)) (pure tt)) >>= λ fd.
              set_tmp (some (tmp target name)) >> set_fd (some fd))
            (λ u s w. (fd : ℕ) × Held fd s w)
      new_tmp =
          Sat-bind _ _
            (lift_answer new_writer _ (
              Triple-on_error {R = λ e w. ⊥} _ _ (open_excl-Holding target name)
                (λ e. record { at = λ w h. absurd h })))
            (λ fd.
              Sat-weaken _
                (Sat-bind _ _ (At-assign new_writer _)
                  (λ u. At-assign (record new_writer { tmp = some (tmp target name) }) _))
                (λ u s w h. (fd, h)) (λ e s w h. h))

      open_tmp :
          (p : FilePath)
          → Answers
              (At new_writer (Chosen p))
              (lift (on_error (open_excl p) (pure tt)) >>= λ fd.
                set_tmp (some p) >> set_fd (some fd))
              (λ u s w. (fd : ℕ) × Held fd s w)
      open_tmp p = record { at = λ s w h. rw h.1.1 (new_tmp.at s w (h.0, h.1.0)) }

  pub with_writer-Answers :
      (actions : List Action)
      → IsStream actions
      → Answers
          (At new_writer (λ w. Absent target name w × (name ≡ tmp_name host w.drawn)))
          (with_writer host chunk_size target options actions)
          (λ u s w. Unit)
  unfolding with_writer
  with_writer-Answers actions h = Sat-bind _ _ enter-Held (λ u. record {
    at = λ s w g.
        (Sat-bind _ _
            (Sat-catch {Q = λ outcome s w. Held g.0 s w × (outcome ≡ none)} {R = λ e s w. ⊥} _ _
              (Sat-bind _ _ (perform_all-Held g.0 actions h)
                (λ u. Sat-return none (λ s w h. (h, refl))))
              (λ e. record { at = λ s w h. absurd h }))
            (λ outcome. record { at = λ s w h. rw h.1 ((leave-Calmly g.0).at s w h.0) })).at
          s w g.1;
  })
