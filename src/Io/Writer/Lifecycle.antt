-- ===== src/Io/Writer/Lifecycle.antt =====
-- The fields of the writer over any sequence of calls, whatever the calls raise.
use safeatomic.Prelude.{ℕ, ◌≡◌, refl, Bool, true, false, Option, none, some, if◌then◌else◌}
use safeatomic.Sys.Errors.{runtime_error}
use safeatomic.Sys.Fs.{FilePath}
use safeatomic.Sys.World.{World}
use safeatomic.Sys.Exec.{Exec, Result, ok, raised}
use safeatomic.Sys.Method.{catch, ◌>>◌, throw, lift, return}
use safeatomic.Sys.Method.Sat.{
  EndsWith, Sat, Sat-bind, Sat-catch, Sat-return, Sat-throw, Sat-assign, Sat-with_self, Sat-weaken,
}
use safeatomic.Host.{Host}
use safeatomic.Io.Write.{Options, write_checksum_sidecar}
use safeatomic.Io.Writer.{
  AtomicWriter, Writing, Action, write_action, flush_action, commit_action, abort_action,
  raise_action, write, flush, set_fd, set_tmp, fd_or_raise, close_open, unlink_left, discard, place,
  finish, release, commit_open, commit, abort, perform,
}

-- An open file has a name, and after a commit or an abort there is none.
pub record IsConsistent (s : AtomicWriter) : Type 0 where
  pub named : s.tmp ≡ none → s.fd ≡ none
  pub after_commit : s.committed ≡ true → s.tmp ≡ none
  pub after_abort : s.aborted ≡ true → s.tmp ≡ none

abbrev pub Consistent : AtomicWriter → World → Type 0
Consistent s w = IsConsistent s

-- It keeps the fields consistent, also where it raises.
abbrev pub Steady : {A : Type 0} → Writing A → Type 0
Steady m = Sat Consistent m (λ a. Consistent) (λ e. Consistent)

lift-EndsWith :
    {A : Type 0} (P : AtomicWriter → Type 0) (s : AtomicWriter) (x : Result A × World)
    → P s
    → EndsWith (λ a s w. P s) (λ e s w. P s) (x.0, s, x.1)
lift-EndsWith P s (ok a, w) h = h
lift-EndsWith P s (raised e, w) h = h

-- Code that leaves the writer alone.
lift-Same :
    {A : Type 0} (P : AtomicWriter → Type 0) (m : Exec A)
    → Sat (λ s w. P s) (lift m) (λ a s w. P s) (λ e s w. P s)
unfolding lift
lift-Same P m = record { at = λ s w h. lift-EndsWith P s (m w) h }

lift-Steady : {A : Type 0} (m : Exec A) → Steady (lift m)
lift-Steady m = lift-Same IsConsistent m

abbrev Closed : AtomicWriter → World → Type 0
Closed s w = IsConsistent s × (s.fd ≡ none)

-- No file is left.
abbrev Emptied : AtomicWriter → World → Type 0
Emptied s w = IsConsistent s × (s.fd ≡ none) × (s.tmp ≡ none)

-- A call of a writer whose file is closed.
lift-Closed : {A : Type 0} (m : Exec A) → Sat Closed (lift m) (λ a. Closed) (λ e. Consistent)
lift-Closed m =
    Sat-weaken _ (lift-Same (λ s. IsConsistent s × (s.fd ≡ none)) m) (λ a s w h. h) (λ e s w h. h.0)

lift-Emptied : {A : Type 0} (m : Exec A) → Sat Emptied (lift m) (λ a. Emptied) (λ e. Emptied)
lift-Emptied m = lift-Same (λ s. IsConsistent s × (s.fd ≡ none) × (s.tmp ≡ none)) m

fd_or_raise-Steady :
    {A : Type 0} (fd : Option ℕ) (f : ℕ → Writing A)
    → ((n : ℕ) → Steady (f n))
    → Steady (fd_or_raise fd f)
fd_or_raise-Steady none f k = Sat-throw runtime_error (λ s w h. h)
fd_or_raise-Steady (some n) f k = k n

close_open-Closed :
    (fd : Option ℕ)
    → Sat (λ s w. IsConsistent s × (s.fd ≡ fd)) (close_open fd) (λ u. Closed) (λ e. Consistent)
unfolding set_fd
close_open-Closed none = Sat-return tt (λ s w h. h)
close_open-Closed (some fd) =
    Sat-bind {Q = λ u. Consistent} _ _
      (Sat-weaken _ (lift-Same (λ s. IsConsistent s × (s.fd ≡ some fd)) _) (λ u s w h. h.0)
        (λ e s w h. h.0))
      (λ u. Sat-assign _ (λ s w h. (
        record { named = λ e. refl; after_commit = h.after_commit; after_abort = h.after_abort },
        refl,
      )))

forget :
    (s : AtomicWriter) → IsConsistent s × (s.fd ≡ none) → IsConsistent (record s { tmp = none })
forget s h = record { named = λ e. h.1; after_commit = λ e. refl; after_abort = λ e. refl }

unlink_left-Emptied :
    (tmp : Option FilePath)
    → Sat
        (λ s w. IsConsistent s × (s.fd ≡ none) × (s.tmp ≡ tmp))
        (unlink_left tmp)
        (λ u. Emptied)
        (λ e. Consistent)
unfolding set_tmp
unlink_left-Emptied none = Sat-return tt (λ s w h. h)
unlink_left-Emptied (some tmp) =
    Sat-bind {Q = λ u. Closed} _ _
      (Sat-weaken _ (lift-Same (λ s. IsConsistent s × (s.fd ≡ none) × (s.tmp ≡ some tmp)) _)
        (λ u s w h. (h.0, h.1)) (λ e s w h. h.0))
      (λ u. Sat-assign _ (λ s w h. (forget s h, h.1, refl)))

discard-Emptied : Sat Consistent discard (λ u. Emptied) (λ e. Consistent)
unfolding discard
discard-Emptied =
    Sat-bind _ _ (Sat-with_self _ (λ s w h. (close_open-Closed s.fd).at s w (h, refl)))
      (λ u. Sat-with_self _ (λ s w h. (unlink_left-Emptied s.tmp).at s w (h.0, h.1, refl)))

module _ (host : Host) (chunk_size : ℕ) (target : FilePath) (options : Options) where
  release-Emptied :
      Sat Emptied (release host chunk_size target options) (λ u. Emptied) (λ e. Emptied)
  unfolding release
  release-Emptied = lift-Emptied _

  place-Emptied :
      (tmp : FilePath) (fd : ℕ)
      → Sat Consistent
          (place host chunk_size target options tmp fd)
          (λ u. Emptied)
          (λ e. Consistent)
  unfolding place set_fd set_tmp
  place-Emptied tmp fd = Sat-bind _ _ (lift-Steady _) (λ u. Sat-bind _ _ (lift-Steady _) (λ u.
      Sat-bind {Q = λ u. Closed} _ _
        (Sat-assign _ (λ s w h. (
          record { named = λ e. refl; after_commit = h.after_commit; after_abort = h.after_abort },
          refl,
        )))
        (λ u. Sat-bind _ _ (lift-Closed _) (λ u.
          Sat-bind _ _ (lift-Closed _) (λ u. Sat-assign _ (λ s w h. (forget s h, h.1, refl)))))))

  finish-Steady : Sat Emptied (finish host chunk_size target options) (λ u. Emptied) (λ e. Emptied)
  unfolding finish
  finish-Steady =
      Sat-bind {Q = λ u. Emptied} _ _
        (Sat-assign _ (λ s w h. (
          record { named = λ e. h.1; after_commit = λ e. h.2; after_abort = h.0.after_abort },
          h.1,
          h.2,
        )))
        (λ u.
          Sat-bind _ _ (lift-Emptied _)
            (λ u. Sat-bind _ _ (sidecar options.write_checksum) (λ u. release-Emptied)))
    where
      sidecar :
          (b : Bool)
          → Sat Emptied
              (if b
                then catch
                    (lift (write_checksum_sidecar host chunk_size target options.checksum_algo))
                    (λ e. release host chunk_size target options >> throw e)
                else return tt)
              (λ u. Emptied)
              (λ e. Emptied)
      sidecar true =
          Sat-catch _ _ (lift-Emptied _)
            (λ e. Sat-bind _ _ release-Emptied (λ u. Sat-throw e (λ s w h. h)))
      sidecar false = Sat-return tt (λ s w h. h)

  commit_open-Steady :
      (fd : Option ℕ) (tmp : Option FilePath)
      → Steady (commit_open host chunk_size target options fd tmp)
  commit_open-Steady none tmp = Sat-throw runtime_error (λ s w h. h)
  commit_open-Steady (some fd) none = Sat-throw runtime_error (λ s w h. h)
  commit_open-Steady (some fd) (some tmp) =
      Sat-bind _ _
        (Sat-catch _ _ (place-Emptied tmp fd) (λ e.
          Sat-bind _ _ discard-Emptied
            (λ u. Sat-bind _ _ (emptied release-Emptied) (λ u. Sat-throw e (λ s w h. h.0)))))
        (λ u. Sat-weaken _ finish-Steady (λ u s w h. h.0) (λ e s w h. h.0))
    where
      emptied :
          {m : Writing (Unit {0})}
          → Sat Emptied m (λ u. Emptied) (λ e. Emptied)
          → Sat Emptied m (λ u. Emptied) (λ e. Consistent)
      emptied k = Sat-weaken _ k (λ u s w h. h) (λ e s w h. h.0)

  commit-Steady : Steady (commit host chunk_size target options)
  unfolding commit
  commit-Steady = Sat-with_self _ (λ s w h. (once s.committed s.fd s.tmp).at s w h)
    where
      once :
          (b : Bool) (fd : Option ℕ) (tmp : Option FilePath)
          → Steady
              (if b then throw runtime_error else commit_open host chunk_size target options fd tmp)
      once true fd tmp = Sat-throw runtime_error (λ s w h. h)
      once false fd tmp = commit_open-Steady fd tmp

  abort-Steady : Steady (abort host chunk_size target options)
  unfolding abort
  abort-Steady = Sat-bind _ _ discard-Emptied (λ u.
      Sat-bind {Q = λ u. Emptied} _ _
        (Sat-assign _ (λ s w h. (
          record { named = λ e. h.1; after_commit = h.0.after_commit; after_abort = λ e. h.2 },
          h.1,
          h.2,
        )))
        (λ u. Sat-weaken _ release-Emptied (λ u s w h. h.0) (λ e s w h. h.0)))

  -- Each call keeps the fields consistent.
  pub perform-Steady : (a : Action) → Steady (perform host chunk_size target options a)
  unfolding perform write flush
  perform-Steady (write_action text) =
      Sat-bind {Q = λ n. Consistent} _ _
        (Sat-with_self _ (λ s w h.
          (fd_or_raise-Steady s.fd _
              (λ fd. Sat-bind _ _ (lift-Steady _) (λ u. Sat-return _ (λ s w h. h)))).at
            s w h))
        (λ n. Sat-return tt (λ s w h. h))
  perform-Steady flush_action =
      Sat-with_self _ (λ s w h. (fd_or_raise-Steady s.fd _ (λ fd. lift-Steady _)).at s w h)
  perform-Steady commit_action = commit-Steady
  perform-Steady abort_action = abort-Steady
  perform-Steady (raise_action e) = Sat-throw e (λ s w h. h)
