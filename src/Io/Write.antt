-- ===== src/Io/Write.antt =====
-- `write_atomic`, `write_atomic_bytes` and what they are made of.
use safeatomic.Prelude.{
  ℕ, zero, suc, ◌+◌, ℤ, Bool, Option, none, some, Str, Bytes, length, drop, ltb, if◌then◌else◌,
}
use safeatomic.Prelude.Eq.{◌==◌, nat_eq}
use safeatomic.Constants.{SafetyPolicy, ConcurrencyPolicy}
use safeatomic.Sys.Errors.{
  safe_atomic_error, lock_error, cross_device_atomicity_error, unicode_error, is_os_error,
}
use safeatomic.Sys.Fs.{FilePath}
use safeatomic.Sys.Exec.{
  Exec, pure, raise, try_except, on_error, finally, suppress, suppress_os, when, ◌>>=◌, ◌>>◌,
}
use safeatomic.Sys.Calls.{
  open_excl, write, fsync, close, unlink, replace, exists, copystat, stat_device, stat_dir,
}
use safeatomic.Host.{Host}
use safeatomic.Config.{Context, Resolved, resolve_config}
use safeatomic.Paths.{tmp_path_for}
use safeatomic.Locks.Acquire.{try_acquire_lock}
use safeatomic.Locks.Release.{release_lock}
use safeatomic.Checksum.{write_checksum_file}
use safeatomic.Io.Safety.{Required, required_write, is_lock, check_safety}
use safeatomic.Io.Fsync.{fsync_dir}

-- The loop over partial writes. Each round writes a byte at least, so as many rounds as bytes that
-- are left are enough.
unfoldable pub write_loop : ℕ → ℕ → Bytes → ℕ → Exec (Unit {0})
write_loop zero fd text written = pure tt
write_loop (suc fuel) fd text written =
    let round = write fd (drop written text) >>= λ n. write_loop fuel fd text (written + n) in
    if ltb written (length text) then round else pure tt

unfoldable pub write_bytes_to_fd : ℕ → Bytes → Exec (Unit {0})
write_bytes_to_fd fd text = write_loop (length text) fd text 0

-- Failures are logged and let pass.
unfoldable pub write_copystat : FilePath → FilePath → Bool → Exec (Unit {0})
write_copystat target tmp preserve_metadata =
    if preserve_metadata
    then (do found ← exists target; when found (suppress_os (copystat target tmp)))
    else pure tt

abbrev pub differ : FilePath → FilePath → Option (ℕ × ℕ) → Exec (Unit {0})
differ tmp target none = pure tt
differ tmp target (some (tmp_dev, parent_dev)) =
    if tmp_dev == parent_dev then pure tt else raise (cross_device_atomicity_error tmp target)

-- `none` where a `stat` failed.
unfoldable pub stat_both : FilePath → FilePath → Exec (Option (ℕ × ℕ))
stat_both tmp target =
    try_except
      (do
        tmp_dev ← stat_device tmp
        parent_dev ← stat_dir target.dir
        pure (some (tmp_dev, parent_dev)))
      (λ e. if is_os_error e then pure none else raise e)

unfoldable pub write_device_check : FilePath → FilePath → Exec (Unit {0})
unfolding stat_both
write_device_check tmp target = stat_both tmp target >>= differ tmp target

-- The handler `except BaseException`, by the two local variables.
unfoldable pub clean_up : Option ℕ → Option FilePath → Exec (Unit {0})
clean_up none none = pure tt
clean_up none (some tmp) = suppress_os (unlink tmp)
clean_up (some fd) none = suppress_os (close fd)
clean_up (some fd) (some tmp) = suppress_os (close fd) >> suppress_os (unlink tmp)

-- The keyword arguments after their resolution.
pub record Options : Type 0 where
  pub concurrency : ConcurrencyPolicy
  pub preserve_metadata : Bool
  pub write_checksum : Bool
  pub checksum_algo : Str
  pub retries : ℤ
  pub delay : ℤ
  pub session : Option Str
  pub safety : SafetyPolicy

-- The keyword arguments of the two public functions.
abbrev pub with_resolved : Options → Resolved → Options
with_resolved o r = record o {
  checksum_algo = r.checksum_algo;
  retries = r.retries;
  delay = r.delay;
}

module _ (host : Host) (chunk_size : ℕ) where
  unfoldable pub write_checksum_sidecar : FilePath → Str → Exec (Unit {0})
  write_checksum_sidecar target checksum_algo =
      try_except (write_checksum_file host chunk_size target checksum_algo >>= λ p. pure tt)
        (λ e. raise safe_atomic_error)

  unfoldable pub acquire_lock : FilePath → Options → Exec (Unit {0})
  acquire_lock target o = do
    acquired ← try_acquire_lock host target o.session o.retries o.delay o.safety
    if acquired then pure tt else raise lock_error

  unfoldable pub release_lock_suppress : FilePath → Exec (Unit {0})
  release_lock_suppress target = suppress (release_lock host target)

  -- Steps 6 to 8, with `fd` and `tmp` set.
  unfoldable pub fill_tmp : FilePath → ℕ → Bytes → Exec (Unit {0})
  fill_tmp tmp fd text =
      on_error (write_bytes_to_fd fd text >> (fsync fd >> close fd)) (clean_up (some fd) (some tmp))

  -- Steps 9 to 11, with `tmp` set.
  unfoldable pub place_tmp : FilePath → FilePath → Bool → Exec (Unit {0})
  place_tmp target tmp preserve_metadata =
      on_error
        (write_copystat target tmp preserve_metadata
          >> (write_device_check tmp target >> replace tmp target))
        (clean_up none (some tmp))

  -- Steps 4 to 11. The handler of the one `try` stands behind each stage, with the local variables
  -- as the stage has them.
  unfoldable pub write_and_place : FilePath → Bytes → Bool → Exec (Unit {0})
  write_and_place target text preserve_metadata = do
    tmp ← tmp_path_for host target
    fd ← on_error (open_excl tmp) (clean_up none (some tmp))
    fill_tmp tmp fd text
    place_tmp target tmp preserve_metadata

  unfoldable pub write_core : FilePath → Bytes → Options → Required → Exec (Unit {0})
  write_core target text o required = do
    check_safety host target.dir required o.safety
    when (is_lock o.concurrency) (acquire_lock target o)
    finally (write_and_place target text o.preserve_metadata)
        (when (is_lock o.concurrency) (release_lock_suppress target))
    fsync_dir target.dir o.safety
    when o.write_checksum (write_checksum_sidecar target o.checksum_algo)

  -- `explicit` holds the arguments `encoding`, `checksum_algo`, `retries` and `delay`; the fields of
  -- `o` with those names are not read.
  unfoldable pub write_atomic : Context → Context → Options → FilePath → Str → Exec (Unit {0})
  write_atomic vars explicit o target text =
      let r = resolve_config vars explicit in
      elim (host.encode r.encoding text) [
        | none ↦ raise unicode_error
        | some raw ↦
            write_core target raw (with_resolved o r)
              (required_write o.concurrency o.write_checksum)
      ]

  unfoldable pub write_atomic_bytes :
      Context → Context → Options → FilePath → Bytes → Exec (Unit {0})
  write_atomic_bytes vars explicit o target text =
      write_core target text
        (with_resolved o (resolve_config vars (record explicit { encoding = none })))
        (required_write o.concurrency o.write_checksum)
