-- ===== src/Io/Writer.antt =====
-- The class `AtomicWriter`. What its methods assign is the state; `target` and `options`, which
-- `__init__` sets for good, are parameters.
pub mod Phases
pub mod Abort
pub mod Commit
pub mod Enter
pub mod Block
pub mod Streams
pub mod Returns
pub mod Pieces
pub mod Lifecycle
pub mod Misuse
use safeatomic.Prelude.{
  ℕ, Bool, true, false, ◌||◌, Option, none, some, List, [], ◌∷◌, Bytes, length, if◌then◌else◌,
}
use safeatomic.Sys.Errors.{Exception, runtime_error}
use safeatomic.Sys.Fs.{FilePath}
use safeatomic.Sys.Exec.{Exec, on_error, suppress_os, when}
use safeatomic.Sys.Calls.{open_excl, fsync, close, unlink, replace}
use safeatomic.Sys.Method.{Method, return, throw, lift, catch, assign, with_self, ◌>>=◌, ◌>>◌}
use safeatomic.Host.{Host}
use safeatomic.Config.{Context, resolve_config}
use safeatomic.Paths.{tmp_path_for}
use safeatomic.Io.Safety.{required_write, is_lock, check_safety}
use safeatomic.Io.Fsync.{fsync_dir}
use safeatomic.Io.Write.{
  Options, write_bytes_to_fd, write_copystat, write_checksum_sidecar, acquire_lock,
  release_lock_suppress, with_resolved,
}

pub record AtomicWriter : Type 0 where
  pub tmp : Option FilePath
  pub fd : Option ℕ
  pub committed : Bool
  pub aborted : Bool

-- `__init__`
abbrev pub new_writer : AtomicWriter
new_writer = record { tmp = none; fd = none; committed = false; aborted = false }

-- The options that `__init__` keeps. `explicit` holds `checksum_algo`, `retries` and `delay`.
unfoldable pub writer_options : Context → Context → Options → Options
writer_options vars explicit o =
    with_resolved o (resolve_config vars (record explicit { encoding = none }))

-- What a `with` block does with the writer, and the exception that it raises itself.
pub data Action : Type 0 where
  write_action : Bytes → Action
  flush_action commit_action abort_action : Action
  raise_action : Exception → Action

abbrev pub Writing : Type 0 → Type 0
Writing = Method AtomicWriter

unfoldable pub set_tmp : Option FilePath → Writing (Unit {0})
set_tmp tmp = assign (λ s. record s { tmp = tmp })

unfoldable pub set_fd : Option ℕ → Writing (Unit {0})
set_fd fd = assign (λ s. record s { fd = fd })

abbrev pub fd_or_raise : {A : Type 0} → Option ℕ → (ℕ → Writing A) → Writing A
fd_or_raise none f = throw runtime_error
fd_or_raise (some fd) f = f fd

unfoldable pub write : Bytes → Writing ℕ
write text =
    with_self λ s. fd_or_raise s.fd λ fd. lift (write_bytes_to_fd fd text) >> return (length text)

unfoldable pub flush : Writing (Unit {0})
flush = with_self λ s. fd_or_raise s.fd λ fd. lift (fsync fd)

unfoldable pub fileno : Writing ℕ
fileno = with_self λ s. fd_or_raise s.fd return

abbrev pub close_open : Option ℕ → Writing (Unit {0})
close_open none = return tt
close_open (some fd) = lift (suppress_os (close fd)) >> set_fd none

abbrev pub unlink_left : Option FilePath → Writing (Unit {0})
unlink_left none = return tt
unlink_left (some tmp) = lift (suppress_os (unlink tmp)) >> set_tmp none

-- What the handler of `commit` and `abort` do first.
unfoldable pub discard : Writing (Unit {0})
discard = with_self (λ s. close_open s.fd) >> with_self (λ s. unlink_left s.tmp)

module _ (host : Host) (chunk_size : ℕ) (target : FilePath) (options : Options) where
  -- `__enter__`
  unfoldable pub enter : Writing (Unit {0})
  enter = do
    lift (
        check_safety host target.dir (required_write options.concurrency options.write_checksum)
          options.safety)
    lift (when (is_lock options.concurrency) (acquire_lock host chunk_size target options))
    tmp ← lift (tmp_path_for host target)
    fd ← lift (
        on_error (open_excl tmp)
          (when (is_lock options.concurrency) (release_lock_suppress host chunk_size target)))
    set_tmp (some tmp)
    set_fd (some fd)

  -- `_release_lock`
  unfoldable pub release : Writing (Unit {0})
  release = lift (when (is_lock options.concurrency) (release_lock_suppress host chunk_size target))

  -- The body of the `try` in `commit`: up to the replacement and the note that it is done.
  unfoldable pub place : FilePath → ℕ → Writing (Unit {0})
  place tmp fd = do
    lift (fsync fd)
    lift (close fd)
    set_fd none
    lift (write_copystat target tmp options.preserve_metadata)
    lift (replace tmp target)
    set_tmp none

  unfoldable pub finish : Writing (Unit {0})
  finish = do
    assign (λ s. record s { committed = true })
    lift (fsync_dir target.dir options.safety)
    if options.write_checksum
        then catch (lift (write_checksum_sidecar host chunk_size target options.checksum_algo))
            (λ e. release >> throw e)
        else return tt
    release

  abbrev pub commit_open : Option ℕ → Option FilePath → Writing (Unit {0})
  commit_open none tmp = throw runtime_error
  commit_open (some fd) none = throw runtime_error
  commit_open (some fd) (some tmp) =
      catch (place tmp fd) (λ e. discard >> (release >> throw e)) >> finish

  unfoldable pub commit : Writing (Unit {0})
  commit = with_self λ s. if s.committed then throw runtime_error else commit_open s.fd s.tmp

  unfoldable pub abort : Writing (Unit {0})
  abort = discard >> (assign (λ s. record s { aborted = true }) >> release)

  -- `__exit__`, told whether the block raised
  unfoldable pub exit : Bool → Writing (Unit {0})
  exit failed =
      if failed
      then abort
      else with_self λ s. if s.committed || s.aborted then return tt else commit

  unfoldable pub perform : Action → Writing (Unit {0})
  perform (write_action text) = write text >>= λ n. return tt
  perform flush_action = flush
  perform commit_action = commit
  perform abort_action = abort
  perform (raise_action e) = throw e

  unfoldable pub perform_all : List Action → Writing (Unit {0})
  perform_all [] = return tt
  perform_all (a ∷ actions) = perform a >> perform_all actions

  abbrev pub leave : Option Exception → Writing (Unit {0})
  leave none = exit false
  leave (some e) = exit true >> throw e

  -- `with AtomicWriter(target, ...) as w: actions`
  unfoldable pub with_writer : List Action → Writing (Unit {0})
  with_writer actions = do
    enter
    raised_by ← catch (perform_all actions >> return none) (λ e. return (some e))
    leave raised_by
